-- ===== src/Osc/RoundTrip.antt =====
-- Parsing a packet gives back what was packed.
use sc_adat_appliance.Base.{
  ℕ, ◌+◌, ◌-◌, ◌%◌, ◌^◌, ◌≡◌, refl, ap, sym, ◌∙◌, Option, none, some, List, [], ◌∷◌, ◌++◌, arith,
  length, drop, slice, slice-part, drop-part, ltb, inl, inr, Bool-cases,
}
use sc_adat_appliance.Base.Bytes.{to_big, from_big-to_big, length-to_big}
use sc_adat_appliance.Base.Text.{Text}
use sc_adat_appliance.Base.Int.{ℤ, pos, negsuc}
use sc_adat_appliance.Base.Result.{ok}
use sc_adat_appliance.Base.Sealed.{bind_ok, bind-eq-ok}
use sc_adat_appliance.Osc.{
  Arg, int, flt, str, Floats, OscError, or_else, osc_string, pack_int, unpack_int, word, pack_value,
  pack_values, packet, parse_value, parse_values, parse_packet,
}
use sc_adat_appliance.Osc.Strings.{NulFree, osc_read-osc_string}

-- Four bytes in two's complement read back as the number.
pub unpack_int-pack_int :
    (n : ℤ) (bs : List ℕ) → pack_int n ≡ some bs → (length bs ≡ 4) × (unpack_int bs ≡ n)
unfolding pack_int unpack_int
unpack_int-pack_int (pos n) bs h = elim (Bool-cases (ltb n (2 ^ 31))) [
  | inl e ↦
      let is_big : to_big 4 n ≡ bs = ground (arith, rw e at h) in
      rw (← is_big, length-to_big 4 n, from_big-to_big 4 n (ground arith)) (refl, rw e refl)
  | inr e ↦ cc (rw e at h)
]
unpack_int-pack_int (negsuc n) bs h = elim (Bool-cases (ltb n (2 ^ 31))) [
  | inl e ↦
      let is_big : to_big 4 (2 ^ 32 - 1 - n) ≡ bs = ground (arith, rw e at h) in
      rw
        (
          ← is_big,
          length-to_big 4 (2 ^ 32 - 1 - n),
          from_big-to_big 4 (2 ^ 32 - 1 - n) (ground arith),
        )
        (refl, ground arith)
  | inr e ↦ cc (rw e at h)
]

or_else-eq-ok {ℓ} :
    {A : Type ℓ} (e : OscError) (o : Option A) (a : A) → or_else e o ≡ ok a → o ≡ some a
or_else-eq-ok e none a h = cc
or_else-eq-ok e (some b) a h = ap some (ground (arith, h))

word_at :
    (w rest bytes : List ℕ) (position : ℕ)
    → length w ≡ 4
    → drop position bytes ≡ w ++ rest
    → word bytes position ≡ ok w
unfolding word
word_at w rest bytes position l here =
    let s : slice position (position + 4) bytes ≡ w =
      slice-part position position (position + 4) bytes [] w rest here (omega arith)
        (omega arith) in
    rw (s, l) refl

module _ (floats : Floats) where
  open floats use {F, single, pack_single, unpack_single, int_of, float_of, text_of}

  -- A value of the type that its tag names.
  pub data Typed : ℕ → Arg F → Type 0 where
    as_int : {typ : ℕ} (n : ℤ) → typ ≡ b'i' → Typed typ (int n)
    as_float : {typ : ℕ} (x : F) → typ ≡ b'f' → Typed typ (flt x)
    as_text : {typ : ℕ} (t : Text) → typ ≡ b's' → NulFree t → Typed typ (str t)

  abbrev pub AllTyped : Text → List (Arg F) → Type 0
  AllTyped [] [] = Unit
  AllTyped [] (v ∷ vs) = ⊥
  AllTyped (typ ∷ typs) [] = ⊥
  AllTyped (typ ∷ typs) (v ∷ vs) = Typed typ v × AllTyped typs vs

  -- A float arrives as the float32 that was sent.
  abbrev pub received : Arg F → Arg F
  received (int n) = int n
  received (flt x) = flt (single x)
  received (str t) = str t

  abbrev pub all_received : List (Arg F) → List (Arg F)
  all_received [] = []
  all_received (v ∷ vs) = received v ∷ all_received vs

  -- One value that stands at an aligned position.
  record ReadsBack (bytes rest : List ℕ) (position typ : ℕ) (v : Arg F) (bs : List ℕ) : Type 0 where
    reads : parse_value floats bytes position typ ≡ ok (some (received v, position + length bs))
    aligned : (position + length bs) % 4 ≡ 0
    behind : drop (position + length bs) bytes ≡ rest

  pack_value-int :
      (n : ℤ) (bs : List ℕ) → pack_value floats b'i' (int n) ≡ ok bs → pack_int n ≡ some bs
  unfolding pack_value
  pack_value-int n bs h =
      let (m, e1, e2) = bind-eq-ok _ _ h in
      let same_int : n ≡ m =
        ground (arith, floats.int_of-int n, or_else-eq-ok _ (int_of (int n)) m e1) in
      rw same_int (or_else-eq-ok _ (pack_int m) bs e2)

  pack_value-float :
      (x : F) (bs : List ℕ) → pack_value floats b'f' (flt x) ≡ ok bs → pack_single x ≡ some bs
  unfolding pack_value
  pack_value-float x bs h =
      let (y, e1, e2) = bind-eq-ok _ _ h in
      let same_float : x ≡ y =
        ground (arith, floats.float_of-flt x, or_else-eq-ok _ (float_of (flt x)) y e1) in
      rw same_float (or_else-eq-ok _ (pack_single y) bs e2)

  value-ReadsBack :
      (typ : ℕ) (v : Arg F) (bs rest bytes : List ℕ) (position : ℕ)
      → Typed typ v
      → pack_value floats typ v ≡ ok bs
      → position % 4 ≡ 0
      → drop position bytes ≡ bs ++ rest
      → ReadsBack bytes rest position typ v bs
  unfolding parse_value
  value-ReadsBack typ _ bs rest bytes position (as_int n e) h a here =
      let (l, back) = unpack_int-pack_int n bs (pack_value-int n bs (rw e at h)) in
      record {
        reads = rw e (bind_ok _ (word_at bs rest bytes position l here) (rw (back, l) refl));
        aligned = omega (arith, l);
        behind = drop-part position (position + length bs) bytes bs rest here refl;
      }
  value-ReadsBack typ _ bs rest bytes position (as_float x e) h a here =
      let (l, back) = floats.unpack-pack x bs (pack_value-float x bs (rw e at h)) in
      record {
        reads = rw e (bind_ok _ (word_at bs rest bytes position l here) (rw (back, l) refl));
        aligned = omega (arith, l);
        behind = drop-part position (position + length bs) bytes bs rest here refl;
      }
  value-ReadsBack typ _ bs rest bytes position (as_text t e nul) h a here =
      let sent : osc_string t ≡ ok bs =
        ap osc_string (sym (floats.text_of-str t)) ∙ unfold pack_value in (rw e at h) in
      let (back, aligned, behind) = osc_read-osc_string t bs rest bytes position sent nul a here in
      record { reads = rw e (bind_ok _ back refl); aligned = aligned; behind = behind }

  values-read_back :
      (typs : Text) (vs : List (Arg F)) (bs bytes : List ℕ) (position : ℕ)
      → AllTyped typs vs
      → pack_values floats typs vs ≡ ok bs
      → position % 4 ≡ 0
      → drop position bytes ≡ bs
      → parse_values floats bytes position typs ≡ ok (all_received vs)
  unfolding pack_values parse_values
  values-read_back [] [] bs bytes position t h a here = refl
  values-read_back [] (v ∷ vs) bs bytes position t h a here = elim t [ ]
  values-read_back (typ ∷ typs) [] bs bytes position t h a here = elim t [ ]
  values-read_back (typ ∷ typs) (v ∷ vs) bs bytes position t h a here =
      let (one, e1, h1) = bind-eq-ok _ _ h in
      let (more, e2, h2) = bind-eq-ok _ _ h1 in
      let whole : bs ≡ one ++ more = ground (arith, h2) in
      let r = value-ReadsBack typ v one more bytes position t.0 e1 a (here ∙ whole) in
      bind_ok _ r.reads (
        bind_ok _
          (values-read_back typs vs more bytes (position + length one) t.1 e2 r.aligned r.behind)
          refl)

-- A packet whose values have the types that its tags name, and whose texts have no NUL, parses
-- to its path, its tags and its values, with each float rounded to the float32 that was sent.
pub parse_packet-packet :
    (floats : Floats) (path : Text) (tag : ℕ) (typs : Text) (vs : List (Arg (floats.F)))
    (bytes : List ℕ)
    → NulFree path
    → NulFree (tag ∷ typs)
    → AllTyped floats typs vs
    → packet floats path (tag ∷ typs) vs ≡ ok bytes
    → parse_packet floats bytes ≡ ok (path, tag ∷ typs, all_received floats vs)
unfolding packet parse_packet drop
parse_packet-packet floats path tag typs vs bytes np nt typed h =
    let (head, e1, h1) = bind-eq-ok _ _ h in
    let (tags, e2, h2) = bind-eq-ok _ _ h1 in
    let (body, e3, h3) = bind-eq-ok _ _ h2 in
    let whole : bytes ≡ head ++ (tags ++ body) = ground (arith, h3) in
    let (r1, a1, d1) = osc_read-osc_string path head (tags ++ body) bytes 0 e1 np refl whole in
    let (r2, a2, d2) =
      osc_read-osc_string (tag ∷ typs) tags body bytes (0 + length head) e2 nt a1 d1 in
    bind_ok _ r1 (
      bind_ok _ r2 (
        bind_ok _
          (values-read_back floats typs vs body bytes (0 + length head + length tags) typed e3 a2
            d2)
          refl))
