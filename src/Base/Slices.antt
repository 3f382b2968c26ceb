-- ===== src/Base/Slices.antt =====
-- Python's slices of byte strings: reading `xs[i:j]`, and assigning a segment of the same length.
use Prim.Native.Nat.{ℕ, ◌+◌, ◌-◌, ◌≤◌}
use mathlib.Core.Path.{◌≡⟨◌⟩◌, ◌∎, ◌≡◌, refl, ap, sym, ◌∙◌}
use mathlib.Core.List.{List, ◌++◌}
use native.Mathlib.Omega.{arith}
use sc_adat_appliance.Base.Lists.{
  All, All-append, All-take, All-drop, length, take, drop, length-append, length-take, length-drop,
  take_all, take-drop, take-append_le, drop-append_ge, drop-drop, take-take,
}

module _ {ℓ} {A : Type ℓ} where
  -- `xs[i:j]`
  unfoldable pub slice : ℕ → ℕ → List A → List A
  slice i j xs = take (j - i) (drop i xs)

  -- `xs[i:i + len(seg)] = seg`
  unfoldable pub splice : ℕ → List A → List A → List A
  splice i seg xs = take i xs ++ (seg ++ drop (i + length seg) xs)

  pub length-splice :
      (i : ℕ) (seg xs : List A) → i + length seg ≤ length xs → length (splice i seg xs) ≡ length xs
  unfolding splice
  length-splice i seg xs h = omega (
    arith,
    length-append (take i xs) (seg ++ drop (i + length seg) xs),
    length-append seg (drop (i + length seg) xs),
    length-take i xs,
    length-drop (i + length seg) xs,
  )

  drop-splice :
      (i : ℕ) (seg xs : List A)
      → i ≤ length xs
      → drop i (splice i seg xs) ≡ seg ++ drop (i + length seg) xs
  unfolding splice drop
  drop-splice i seg xs h =
      let e : length (take i xs) ≡ i = omega (arith, length-take i xs) in
      let z : i - length (take i xs) ≡ 0 = omega arith in
      rw (drop-append_ge i (take i xs) (seg ++ drop (i + length seg) xs) (omega arith), z) refl

  pub slice-splice_self :
      (i j : ℕ) (seg xs : List A)
      → i + length seg ≡ j
      → j ≤ length xs
      → slice i j (splice i seg xs) ≡ seg
  unfolding slice
  slice-splice_self i j seg xs e h =
      let k : j - i ≡ length seg = omega arith in
      rw
        (
          drop-splice i seg xs (omega arith),
          k,
          take-append_le (length seg) seg (drop (i + length seg) xs) (omega arith),
        )
        (take_all (length seg) seg (omega arith))

  pub take-splice :
      (n i : ℕ) (seg xs : List A) → n ≤ i → i ≤ length xs → take n (splice i seg xs) ≡ take n xs
  unfolding splice
  take-splice n i seg xs h b =
      rw
        (take-append_le n (take i xs) (seg ++ drop (i + length seg) xs)
          (omega (arith, length-take i xs)))
        (take-take n i xs h)

  pub drop-splice_after :
      (n i : ℕ) (seg xs : List A)
      → i + length seg ≤ n
      → i ≤ length xs
      → drop n (splice i seg xs) ≡ drop n xs
  drop-splice_after n i seg xs h b =
      let e : n ≡ i + (n - i) = omega arith in
      let k : i + length seg + (n - i - length seg) ≡ n = omega arith in
      drop n (splice i seg xs)
      ≡⟨ ap (λ (m : ℕ). drop m (splice i seg xs)) e ⟩ drop (i + (n - i)) (splice i seg xs)
      ≡⟨ sym (drop-drop (n - i) i (splice i seg xs)) ⟩ drop (n - i) (drop i (splice i seg xs))
      ≡⟨ ap (drop (n - i)) (drop-splice i seg xs b) ⟩ drop (n - i) (seg ++ drop (i + length seg) xs)
      ≡⟨ drop-append_ge (n - i) seg (drop (i + length seg) xs) (omega arith) ⟩
        drop (n - i - length seg) (drop (i + length seg) xs)
      ≡⟨ drop-drop (n - i - length seg) (i + length seg) xs ⟩
        drop (i + length seg + (n - i - length seg)) xs
      ≡⟨ ap (λ (m : ℕ). drop m xs) k ⟩ drop n xs ∎

  -- A segment that is assigned behind the slice leaves it alone.
  pub slice-splice_before :
      (i j k : ℕ) (seg xs : List A)
      → j ≤ k
      → k ≤ length xs
      → slice i j (splice k seg xs) ≡ slice i j xs
  unfolding slice
  slice-splice_before i j k seg xs h b =
      take-drop i j (splice k seg xs)
      ∙ ap (drop i) (take-splice j k seg xs h b)
      ∙ sym (take-drop i j xs)

  pub slice-take-append :
      (i j n : ℕ) (xs ys : List A)
      → j ≤ n
      → n ≤ length xs
      → slice i j (take n xs ++ ys) ≡ slice i j xs
  unfolding slice
  slice-take-append i j n xs ys h b =
      take-drop i j (take n xs ++ ys)
      ∙ ap (drop i)
          (take-append_le j (take n xs) ys (omega (arith, length-take n xs)) ∙ take-take j n xs h)
      ∙ sym (take-drop i j xs)

  pub length-slice : (i j : ℕ) (xs : List A) → j ≤ length xs → length (slice i j xs) ≡ j - i
  unfolding slice
  length-slice i j xs h = omega (arith, length-take (j - i) (drop i xs), length-drop i xs)

module _ {ℓ} {A : Type ℓ} where
  -- The parts of what a byte string holds from an offset on.
  pub drop-part :
      (o i : ℕ) (file xs ys : List A)
      → drop o file ≡ xs ++ ys
      → o + length xs ≡ i
      → drop i file ≡ ys
  unfolding drop
  drop-part o i file xs ys e a =
      let z : length xs - length xs ≡ 0 = omega arith in
      ap (λ (m : ℕ). drop m file) (sym a)
      ∙ sym (drop-drop (length xs) o file)
      ∙ ap (drop (length xs)) e
      ∙ drop-append_ge (length xs) xs ys (omega arith)
      ∙ ap (λ (m : ℕ). drop m ys) z

  pub slice-part :
      (o i j : ℕ) (file xs ys zs : List A)
      → drop o file ≡ xs ++ (ys ++ zs)
      → o + length xs ≡ i
      → i + length ys ≡ j
      → slice i j file ≡ ys
  unfolding slice
  slice-part o i j file xs ys zs e a b =
      let n : j - i ≡ length ys = omega arith in
      ap (take (j - i)) (drop-part o i file xs (ys ++ zs) e a)
      ∙ ap (λ (m : ℕ). take m (ys ++ zs)) n
      ∙ take-append_le (length ys) ys zs (omega arith)
      ∙ take_all (length ys) ys (omega arith)

pub All-splice {ℓ κ} :
    {A : Type ℓ} (P : A → Type κ) (i : ℕ) (seg xs : List A)
    → All P seg
    → All P xs
    → All P (splice i seg xs)
unfolding splice
All-splice P i seg xs hs hx =
    All-append P (take i xs) (seg ++ drop (i + length seg) xs) (All-take P i xs hx)
      (All-append P seg (drop (i + length seg) xs) hs (All-drop P (i + length seg) xs hx))
