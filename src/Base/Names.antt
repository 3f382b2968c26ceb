-- ===== src/Base/Names.antt =====
-- Python's `dict` with texts as keys. Each key stands once, so that taking it out takes all of it.
use sc_adat_appliance.Base.{
  ◌≡◌, refl, ◌∙◌, inl, inr, false, Option, none, some, List, [], ◌∷◌, Bool-cases, if◌then◌else◌,
}
use sc_adat_appliance.Base.Bytes.{same, same_iff}
use sc_adat_appliance.Base.Text.{Text}

module _ {ℓ} {A : Type ℓ} where
  unfoldable pub get : Text → List (Text × A) → Option A
  get k [] = none
  get k ((j, v) ∷ rest) = if same j k then some v else get k rest

  unfoldable pub put : Text → A → List (Text × A) → List (Text × A)
  put k v [] = (k, v) ∷ []
  put k v ((j, w) ∷ rest) = if same j k then (j, v) ∷ rest else (j, w) ∷ put k v rest

  unfoldable pub pop : Text → List (Text × A) → List (Text × A)
  pop k [] = []
  pop k ((j, w) ∷ rest) = if same j k then pop k rest else (j, w) ∷ pop k rest

  pub get-put :
      (q k : Text) (v : A) (m : List (Text × A))
      → get q (put k v m) ≡ (if same k q then some v else get q m)
  unfolding get put
  get-put q k v [] = refl
  get-put q k v ((j, w) ∷ m) = elim (Bool-cases (same j k)) [
    | inl here ↦
        let eq : j ≡ k = (same_iff j k).0 here in
        rw (here, get, eq) (elim (Bool-cases (same k q)) [ inl e ↦ rw e refl | inr e ↦ rw e refl ])
    | inr apart ↦
        rw (apart, get)
          (elim (Bool-cases (same j q)) [
            | inl e ↦
                let ne : same k q ≡ false = elim (Bool-cases (same k q)) [
                  | inr n ↦ n
                  | inl y ↦ absurd (cc ((same_iff k q).0 y, apart))
                ] in
                rw (e, ne) refl
            | inr e ↦ rw e (get-put q k v m)
          ])
  ]

  pub get-pop :
      (q k : Text) (m : List (Text × A)) → get q (pop k m) ≡ (if same k q then none else get q m)
  unfolding get pop
  get-pop q k [] = elim (Bool-cases (same k q)) [ inl e ↦ rw e refl | inr e ↦ rw e refl ]
  get-pop q k ((j, w) ∷ m) = elim (Bool-cases (same j k)) [
    | inl here ↦
        let eq : j ≡ k = (same_iff j k).0 here in
        rw here (
          get-pop q k m
          ∙ rw eq (elim (Bool-cases (same k q)) [ inl e ↦ rw e refl | inr e ↦ rw e refl ]))
    | inr apart ↦
        rw (apart, get)
          (elim (Bool-cases (same j q)) [
            | inl e ↦
                let ne : same k q ≡ false = elim (Bool-cases (same k q)) [
                  | inr n ↦ n
                  | inl y ↦ absurd (cc ((same_iff k q).0 y, apart))
                ] in
                rw (e, ne) refl
            | inr e ↦ rw e (get-pop q k m)
          ])
  ]
