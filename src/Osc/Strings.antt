-- ===== src/Osc/Strings.antt =====
-- Reading a padded string where it was written.
use sc_adat_appliance.Base.{
  ℕ, ◌+◌, ◌-◌, ◌*◌, ◌/◌, ◌%◌, ◌≡◌, ◌≢◌, refl, ap, ◌∙◌, Option, none, some, List, [], ◌∷◌, ◌++◌,
  arith, length, drop, replicate, slice, length-append, length-replicate, append_assoc, slice-part,
  drop-part, All,
}
use sc_adat_appliance.Base.Text.{Text}
use sc_adat_appliance.Base.Utf8.{encode, decode, decode-encode, encode-no_zero}
use sc_adat_appliance.Base.Result.{ok}
use sc_adat_appliance.Base.Sealed.{◌>>=◌, bind_ok}
use sc_adat_appliance.Osc.{OscError, pad, osc_string, index_zero, osc_read, or_else}

abbrev pub NulFree : Text → Type 0
NulFree = All (λ c. c ≢ 0)

-- The bytes of a string: a text without zero bytes, its end, and zeros up to a multiple of 4.
pub record Padded (t : Text) (bs : List ℕ) : Type 0 where
  pub raw : List ℕ
  pub zeros : List ℕ
  pub encoded : encode t ≡ some raw
  pub shape : bs ≡ raw ++ (0 ∷ zeros)
  pub size : length bs ≡ (length raw + 4) / 4 * 4

osc_string-shape :
    (raw : List ℕ) → pad (raw ++ 0 ∷ []) ≡ raw ++ (0 ∷ replicate ((4 - (length raw + 1) % 4) % 4) 0)
unfolding pad
osc_string-shape raw =
    let n : length (raw ++ 0 ∷ []) ≡ length raw + 1 = length-append raw (0 ∷ []) in
    rw n (append_assoc raw (0 ∷ []) _)

pub osc_string-Padded : (t : Text) (bs : List ℕ) → osc_string t ≡ ok bs → Padded t bs
unfolding osc_string
osc_string-Padded t bs h = go (encode t) refl h
  where
    go :
        (o : Option (List ℕ))
        → encode t ≡ o
        → (or_else sc_adat_appliance.Osc.unicode_error o >>= λ bytes. ok (pad (bytes ++ 0 ∷ [])))
          ≡ ok bs
        → Padded t bs
    go none e k = unfold ◌>>=◌ in cc k
    go (some raw) e k =
        let n = (4 - (length raw + 1) % 4) % 4 in
        let is_pad : bs ≡ pad (raw ++ 0 ∷ []) = unfold ◌>>=◌ in ground (arith, k) in
        let s : bs ≡ raw ++ (0 ∷ replicate n 0) = is_pad ∙ osc_string-shape raw in
        record {
          raw = raw;
          zeros = replicate n 0;
          encoded = e;
          shape = s;
          size = omega (
            arith,
            ap length s,
            length-append raw (0 ∷ replicate n 0),
            length-replicate {A = ℕ} n 0,
          );
        }

index_zero-append :
    (raw rest : List ℕ) → All (λ b. b ≢ 0) raw → index_zero (raw ++ (0 ∷ rest)) ≡ some (length raw)
unfolding index_zero
index_zero-append [] rest h = refl
index_zero-append (b ∷ bs) rest h = ground (arith, index_zero-append bs rest h.1, h.0)

pub or_else-some {ℓ} :
    {A : Type ℓ} (e : OscError) {o : Option A} {a : A} → o ≡ some a → or_else e o ≡ ok a
or_else-some e h = rw h refl

-- A string that stands at an aligned position is read back, and the next position is behind it.
pub osc_read-osc_string :
    (t : Text) (bs rest bytes : List ℕ) (position : ℕ)
    → osc_string t ≡ ok bs
    → NulFree t
    → position % 4 ≡ 0
    → drop position bytes ≡ bs ++ rest
    → (osc_read bytes position ≡ ok (t, position + length bs))
      × ((position + length bs) % 4 ≡ 0)
      × (drop (position + length bs) bytes ≡ rest)
unfolding osc_read
osc_read-osc_string t bs rest bytes position h nul aligned here =
    let p = osc_string-Padded t bs h in
    let here' : drop position bytes ≡ p.raw ++ (0 ∷ (p.zeros ++ rest)) =
      here ∙ ap (λ (b : List ℕ). b ++ rest) p.shape ∙ append_assoc p.raw (0 ∷ p.zeros) rest in
    let found : index_zero (drop position bytes) ≡ some (length p.raw) =
      ap index_zero here'
      ∙ index_zero-append p.raw (p.zeros ++ rest) (encode-no_zero t p.raw p.encoded nul) in
    let text_at : slice position (position + length p.raw) bytes ≡ p.raw =
      slice-part position position (position + length p.raw) bytes [] p.raw (0 ∷ (p.zeros ++ rest))
        here' (omega arith) refl in
    let next : (position + length p.raw + 4) / 4 * 4 ≡ position + length bs =
      omega (arith, p.size, aligned) in
    (
      bind_ok _ (or_else-some _ found) (
          bind_ok _ (or_else-some _ (ap decode text_at ∙ decode-encode t p.raw p.encoded))
            (rw next refl)),
      omega (arith, p.size, aligned),
      drop-part position (position + length bs) bytes bs rest here refl,
    )
