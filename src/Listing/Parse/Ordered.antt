-- ===== src/Listing/Parse/Ordered.antt =====
-- What `parse_asm` keeps of its rows and labels.
use sc_adat_appliance.Base.{
  ℕ, suc, ◌+◌, ◌≤◌, ◌≡◌, refl, false, Option, none, some, List, [], ◌∷◌, ◌++◌, if◌then◌else◌,
  if_both, length, length-append, All, arith,
}
use sc_adat_appliance.Base.Text.{Text}
use sc_adat_appliance.Base.Bytes.{same}
use sc_adat_appliance.Base.Regex.{Match, match, search_in, group_of}
use sc_adat_appliance.Listing.{Row, Names, rename}
use sc_adat_appliance.Listing.Opcodes.{
  oplen, size_at, instruction_length, byte_at, is_in, three_bytes, two_bytes,
}
use sc_adat_appliance.Listing.Parse.{
  Listing, parse_asm, on_lines, on_line, on_label, on_data, on_instruction, on_code, on_other,
  after_org, is_directive, text_of, org_cursor, or_address, hex_number, hex_int, org_re, label_re,
  ins_re, data_re,
}

-- The rows from index `n` on carry their own index, and are one to three bytes long.
abbrev pub Numbered : ℕ → List Row → Type 0
Numbered n [] = Unit {0}
Numbered n (row ∷ rows) =
    (row.ordinal ≡ n) × (1 ≤ row.size) × (row.size ≤ 3) × Numbered (suc n) rows

-- Each label stands at a row, or behind the last one.
abbrev pub Standing : ℕ → Names → Type 0
Standing n = All (λ entry. entry.1 ≤ n)

pub record IsOrdered (s : Listing) : Type 0 where
  pub numbered : Numbered 0 s.rows
  pub standing : Standing (length s.rows) s.labels

oplen_bounds : (op : ℕ) → (1 ≤ oplen op) × (oplen op ≤ 3)
unfolding oplen
oplen_bounds op =
    if_both (λ n. (1 ≤ n) × (n ≤ 3)) (is_in op three_bytes) 3 (if is_in op two_bytes then 2 else 1)
      (omega arith, omega arith)
      (if_both (λ n. (1 ≤ n) × (n ≤ 3)) (is_in op two_bytes) 2 1 (omega arith, omega arith)
        (omega arith, omega arith))

size_bounds :
    (rom : List ℕ) (address : Option ℕ)
    → (1 ≤ instruction_length rom address) × (instruction_length rom address ≤ 3)
unfolding instruction_length
size_bounds rom address = go (byte_at rom address)
  where
    go : (op : Option ℕ) → (1 ≤ size_at op) × (size_at op ≤ 3)
    go none = unfold size_at in (omega arith, omega arith)
    go (some op) = unfold size_at in oplen_bounds op

Numbered-append :
    (n : ℕ) (rows : List Row) (row : Row)
    → Numbered n rows
    → row.ordinal ≡ n + length rows
    → (1 ≤ row.size) × (row.size ≤ 3)
    → Numbered n (rows ++ row ∷ [])
Numbered-append n [] row h e b = (omega arith, b.0, b.1, tt)
Numbered-append n (r ∷ rows) row h e b =
    (h.0, h.1, h.2, Numbered-append (suc n) rows row h.3 (omega arith) b)

Standing-rename :
    (n : ℕ) (label : Text) (labels : Names) → Standing n labels → Standing n (rename label n labels)
unfolding rename
Standing-rename n label [] h = (omega arith, tt)
Standing-rename n label ((s, i) ∷ rest) h =
    if_both (Standing n) (same s label) ((s, n) ∷ rest) ((s, i) ∷ rename label n rest)
      (omega arith, h.1) (h.0, Standing-rename n label rest h.1)

Standing-le : (m n : ℕ) (labels : Names) → m ≤ n → Standing m labels → Standing n labels
Standing-le m n [] le h = tt
Standing-le m n ((s, i) ∷ rest) le h = (omega (arith, h.0), Standing-le m n rest le h.1)

on_label-IsOrdered : (label : Text) (s : Listing) → IsOrdered s → IsOrdered (on_label label s)
unfolding on_label
on_label-IsOrdered label s h = record {
  numbered = h.numbered;
  standing = Standing-rename (length s.rows) label s.labels h.standing;
}

on_data-IsOrdered :
    (digits : Option Text) (s : Listing) → IsOrdered s → IsOrdered (on_data digits s)
unfolding on_data
on_data-IsOrdered none s h = h
on_data-IsOrdered (some digits) s h = go (hex_number 0 false digits)
  where
    go :
        (o : Option ℕ)
        → IsOrdered (elim o [ none ↦ s | some a ↦ record s { cursor = some (a + 1) } ])
    go none = h
    go (some a) = record { numbered = h.numbered; standing = h.standing }

on_instruction-IsOrdered :
    (rom : List ℕ) (text : Text) (addr : Option Text) (s : Listing)
    → IsOrdered s
    → IsOrdered (on_instruction rom text addr s)
unfolding on_instruction
on_instruction-IsOrdered rom text addr s h = record {
  numbered =
      Numbered-append 0 s.rows _ h.numbered (omega arith)
        (size_bounds rom (or_address (hex_int addr) s.cursor));
  standing =
      Standing-le (length s.rows) _ s.labels (omega (arith, length-append {0} s.rows)) h.standing;
}

on_code-IsOrdered :
    (rom : List ℕ) (line : Text) (m : Option Match) (s : Listing)
    → IsOrdered s
    → IsOrdered (on_code rom line m s)
on_code-IsOrdered rom line none s h = on_data-IsOrdered (group_of 0 (search_in data_re line)) s h
on_code-IsOrdered rom line (some m) s h =
    if_both IsOrdered (is_directive (text_of (group_of 0 (some m))))
      (on_data (group_of 0 (search_in data_re line)) s)
      (on_instruction rom (text_of (group_of 0 (some m))) (group_of 1 (some m)) s)
      (on_data-IsOrdered (group_of 0 (search_in data_re line)) s h)
      (on_instruction-IsOrdered rom (text_of (group_of 0 (some m))) (group_of 1 (some m)) s h)

on_other-IsOrdered :
    (rom : List ℕ) (line : Text) (label : Option Text) (s : Listing)
    → IsOrdered s
    → IsOrdered (on_other rom line s label)
on_other-IsOrdered rom line none s h = on_code-IsOrdered rom line (match ins_re line) s h
on_other-IsOrdered rom line (some label) s h = on_label-IsOrdered label s h

after_org-IsOrdered :
    (s t : Listing) (c : Option (Option ℕ)) → IsOrdered s → after_org s c ≡ some t → IsOrdered t
after_org-IsOrdered s t none h e = cc
after_org-IsOrdered s t (some cursor) h e =
    let moved : Listing = record s { cursor = cursor } in
    let kept : IsOrdered moved = record { numbered = h.numbered; standing = h.standing } in
    let same : moved ≡ t = cc in rw same at kept

on_line-IsOrdered :
    (rom : List ℕ) (line : Text) (s t : Listing)
    → IsOrdered s
    → on_line rom line s ≡ some t
    → IsOrdered t
unfolding on_line
on_line-IsOrdered rom line s t h e = go (group_of 0 (match org_re line)) e
  where
    go :
        (o : Option Text)
        → elim o [
          | some value ↦ after_org s (org_cursor value)
          | none ↦ some (on_other rom line s (group_of 0 (match label_re line)))
        ]
          ≡ some t
        → IsOrdered t
    go (some value) k = after_org-IsOrdered s t (org_cursor value) h k
    go none k =
        let next = on_other rom line s (group_of 0 (match label_re line)) in
        let same : next ≡ t = cc in
        rw same at (on_other-IsOrdered rom line (group_of 0 (match label_re line)) s h)

on_lines-IsOrdered :
    (rom : List ℕ) (lines : List Text) (s t : Listing)
    → IsOrdered s
    → on_lines rom lines s ≡ some t
    → IsOrdered t
unfolding on_lines
on_lines-IsOrdered rom [] s t h e = let same : s ≡ t = cc in rw same at h
on_lines-IsOrdered rom (line ∷ lines) s t h e =
    go (on_lines-IsOrdered rom lines) (on_line rom line s) refl e
  where
    go :
        ((u v : Listing) → IsOrdered u → on_lines rom lines u ≡ some v → IsOrdered v)
        → (o : Option Listing) → on_line rom line s ≡ o
        → elim o [ none ↦ none | some u ↦ on_lines rom lines u ] ≡ some t
        → IsOrdered t
    go ih none k r = cc
    go ih (some u) k r = ih u t (on_line-IsOrdered rom line s u h k) r

-- Each row of a listing that is read carries its own index and is one to three bytes long, and each
-- label stands at a row or behind the last one.
pub parse_asm-IsOrdered :
    (rom : List ℕ) (lines : List Text) (s : Listing) → parse_asm rom lines ≡ some s → IsOrdered s
unfolding parse_asm
parse_asm-IsOrdered rom lines s e =
    on_lines-IsOrdered rom lines _ s (record { numbered = tt; standing = tt }) e
