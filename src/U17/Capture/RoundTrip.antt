-- ===== src/U17/Capture/RoundTrip.antt =====
-- Reading a capture gives back what was written.
use sc_adat_appliance.Base.{
  ℕ, ◌+◌, ◌^◌, ◌≤◌, ◌<◌, zero, suc, ◌≡◌, refl, ap, sym, ◌∙◌, true, false, List, [], ◌∷◌, ◌++◌,
  arith, length, drop, slice, length-append, length-drop, append_assoc, append-nil, if◌then◌else◌,
  ◌==◌, ltb, Bool-cases, inl, inr, slice-part, drop-part,
}
use sc_adat_appliance.Base.Bytes.{same_refl, from_big, to_big, from_big-to_big, length-to_big}
use sc_adat_appliance.Base.Result.{ok, >>=-eq-ok}
use sc_adat_appliance.U17.Capture.{
  Direction, rx, tx, other, Record, magic, encode, direction_byte, append_record, write, write_all,
  record_session, read_one, read_from, read_capture,
}

-- `write` skips an empty record.
abbrev pub kept : List Record → List Record
kept [] = []
kept (r ∷ rs) = if length r.payload == 0 then kept rs else r ∷ kept rs

abbrev code_of : Direction → ℕ
code_of rx = 0
code_of tx = 1
code_of (other name) = 2

-- What the file holds for a list of records.
abbrev body : List Record → List ℕ
body [] = []
body (r ∷ rs) = encode r.timestamp (code_of r.direction) r.payload ++ body rs

record Fits (r : Record) : Type 0 where
  stamp_fits : r.timestamp < 2 ^ 64
  size_fits : length r.payload < 2 ^ 32
  known : code_of r.direction < 2

abbrev AllFit : List Record → Type 0
AllFit [] = Unit
AllFit (r ∷ rs) = Fits r × AllFit rs

direction_back : (d : Direction) → code_of d < 2 → (if code_of d == 0 then rx else tx) ≡ d
direction_back rx h = refl
direction_back tx h = refl
direction_back (other name) h = absurd (omega arith)

length-encode : (t d : ℕ) (p : List ℕ) → length (encode t d p) ≡ 13 + length p
unfolding encode
length-encode t d p = omega (
  arith,
  length-append {A = ℕ} (to_big 8 t) (d ∷ (to_big 4 (length p) ++ p)),
  length-append {A = ℕ} (to_big 4 (length p)) p,
  length-to_big 8 t,
  length-to_big 4 (length p),
)

encode-append :
    (t d : ℕ) (p rest : List ℕ)
    → encode t d p ++ rest ≡ to_big 8 t ++ ((d ∷ []) ++ (to_big 4 (length p) ++ (p ++ rest)))
unfolding encode
encode-append t d p rest = simp append_assoc

module _ (file : List ℕ) (o : ℕ) (r : Record) (rest : List ℕ) (fits : Fits r)
    (here : drop o file ≡ encode r.timestamp (code_of r.direction) r.payload ++ rest) where
  abbrev t : List ℕ
  t = to_big 8 r.timestamp

  abbrev d : List ℕ
  d = code_of r.direction ∷ []

  abbrev l : List ℕ
  l = to_big 4 (length r.payload)

  parts : drop o file ≡ t ++ (d ++ (l ++ (r.payload ++ rest)))
  parts = here ∙ encode-append r.timestamp (code_of r.direction) r.payload rest

  stamp_at : from_big 0 (slice o (o + 8) file) ≡ r.timestamp
  stamp_at =
      ap (from_big 0) (
        slice-part o o (o + 8) file [] t (d ++ (l ++ (r.payload ++ rest))) parts (omega arith)
          (omega (arith, length-to_big 8 r.timestamp)))
      ∙ from_big-to_big 8 r.timestamp fits.stamp_fits

  after_stamp : drop (o + 8) file ≡ d ++ (l ++ (r.payload ++ rest))
  after_stamp =
      drop-part o (o + 8) file t (d ++ (l ++ (r.payload ++ rest))) parts
        (omega (arith, length-to_big 8 r.timestamp))

  direction_at : from_big 0 (slice (o + 8) (o + 9) file) ≡ code_of r.direction
  direction_at =
      ap (from_big 0) (
        slice-part (o + 8) (o + 8) (o + 9) file [] d (l ++ (r.payload ++ rest)) after_stamp
          (omega arith) (omega arith))
      ∙ unfold from_big in (omega arith)

  after_direction : drop (o + 9) file ≡ l ++ (r.payload ++ rest)
  after_direction =
      drop-part (o + 8) (o + 9) file d (l ++ (r.payload ++ rest)) after_stamp (omega arith)

  size_at : from_big 0 (slice (o + 9) (o + 13) file) ≡ length r.payload
  size_at =
      ap (from_big 0) (
        slice-part (o + 9) (o + 9) (o + 13) file [] l (r.payload ++ rest) after_direction
          (omega arith) (omega (arith, length-to_big 4 (length r.payload))))
      ∙ from_big-to_big 4 (length r.payload) (omega (arith, fits.size_fits))

  after_size : drop (o + 13) file ≡ r.payload ++ rest
  after_size =
      drop-part (o + 9) (o + 13) file l (r.payload ++ rest) after_direction
        (omega (arith, length-to_big 4 (length r.payload)))

  payload_at : slice (o + 13) (o + 13 + length r.payload) file ≡ r.payload
  payload_at =
      slice-part (o + 13) (o + 13) (o + 13 + length r.payload) file [] r.payload rest after_size
        (omega arith) refl

  rest_at : drop (o + 13 + length r.payload) file ≡ rest
  rest_at = drop-part (o + 13) (o + 13 + length r.payload) file r.payload rest after_size refl

  room : o + 13 + length r.payload ≤ length file
  room = omega (
    arith,
    length-drop {A = ℕ} o file,
    ap length here,
    length-append {A = ℕ} (encode r.timestamp (code_of r.direction) r.payload) rest,
    length-encode r.timestamp (code_of r.direction) r.payload,
  )

  read_one_lem : read_one file o ≡ ok (r, o + 13 + length r.payload)
  unfolding read_one
  read_one_lem =
      rw (stamp_at, direction_at, size_at, payload_at, direction_back r.direction fits.known)
        (ground (arith, room, fits.known))

read_from_step :
    (fuel o : ℕ) (file : List ℕ) (records : List Record) (r : Record) (next : ℕ)
    → o < length file
    → read_one file o ≡ ok (r, next)
    → read_from (suc fuel) file o records ≡ read_from fuel file next (records ++ r ∷ [])
unfolding read_from
read_from_step fuel o file records r next h e =
    let more : ltb o (length file) ≡ true = ground arith in rw (more, e, read_from)

read_from_stop :
    (fuel o : ℕ) (file : List ℕ) (records : List Record)
    → length file ≤ o
    → read_from (suc fuel) file o records ≡ ok records
unfolding read_from
read_from_stop fuel o file records h =
    let end : ltb o (length file) ≡ false = ground arith in rw (end, read_from)

-- From an offset where the file holds the records, with enough fuel.
read_from-body :
    (rs : List Record) (fuel o : ℕ) (file : List ℕ) (records : List Record)
    → AllFit rs
    → o ≤ length file
    → drop o file ≡ body rs
    → length rs < fuel
    → read_from fuel file o records ≡ ok (records ++ rs)
read_from-body rs zero o file records fit h e f = absurd (omega arith)
read_from-body [] (suc fuel) o file records fit h e f =
    read_from_stop fuel o file records (omega (arith, length-drop {A = ℕ} o file, ap length e))
    ∙ ap ok (sym (append-nil records))
read_from-body (r ∷ rs) (suc fuel) o file records fit h e f =
    let next : ℕ = o + 13 + length r.payload in
    let space = room file o r (body rs) fit.0 e in
    read_from_step fuel o file records r next (omega (arith, space))
      (read_one_lem file o r (body rs) fit.0 e)
    ∙ read_from-body rs fuel next file (records ++ r ∷ []) fit.1 space
        (rest_at file o r (body rs) fit.0 e) (omega arith)
    ∙ ap ok (append_assoc records (r ∷ []) rs)

length-body : (rs : List Record) → length rs ≤ length (body rs)
length-body [] = omega arith
length-body (r ∷ rs) = omega (
  arith,
  length-append {A = ℕ} (encode r.timestamp (code_of r.direction) r.payload) (body rs),
  length-encode r.timestamp (code_of r.direction) r.payload,
  length-body rs,
)

read_capture-body : (rs : List Record) → AllFit rs → read_capture (magic ++ body rs) ≡ ok rs
unfolding read_capture
read_capture-body rs fit =
    let front : slice 0 8 (magic ++ body rs) ≡ magic =
      slice-part 0 0 8 (magic ++ body rs) [] magic (body rs) (unfold drop in refl) refl refl in
    let rest : drop 8 (magic ++ body rs) ≡ body rs = unfold drop in refl in
    rw (front, same_refl magic)
      (read_from-body rs (length (magic ++ body rs)) 8 (magic ++ body rs) [] fit (omega arith) rest
        (omega (arith, length-body rs)))

direction_byte-eq-ok :
    (d : Direction) (b : ℕ) → direction_byte d ≡ ok b → (b ≡ code_of d) × (code_of d < 2)
direction_byte-eq-ok rx b h = ground arith
direction_byte-eq-ok tx b h = ground arith
direction_byte-eq-ok (other name) b h = cc

append_record-eq-ok :
    (r : Record) (b : ℕ) (file file' : List ℕ)
    → append_record r b file ≡ ok file'
    → (r.timestamp < 2 ^ 64)
      × (length r.payload < 2 ^ 32)
      × (file' ≡ file ++ encode r.timestamp b r.payload)
append_record-eq-ok r b file file' h = ground arith

-- An accepted write appends nothing for an empty record, and else what the file holds for it.
write-eq-ok :
    (r : Record) (file file' : List ℕ)
    → write r file ≡ ok file'
    → (file' ≡ file ++ body (kept (r ∷ []))) × AllFit (kept (r ∷ []))
unfolding write
write-eq-ok r file file' h =
    let (b, eb, rest) =
      >>=-eq-ok (direction_byte r.direction)
        (λ byte. if length r.payload == 0 then ok file else append_record r byte file) h in
    let (same_code, known) = direction_byte-eq-ok r.direction b eb in
    elim (Bool-cases (length r.payload == 0)) [
      | inl empty ↦ rw empty (ground (arith, append-nil file), tt)
      | inr full ↦
          let (stamp, size, e) = append_record-eq-ok r b file file' (rw full at rest) in
          rw full (
            e
                ∙ ap (λ (c : List ℕ). file ++ c)
                    (ap (λ (c : ℕ). encode r.timestamp c r.payload) same_code ∙ sym (append-nil _)),
            (record { stamp_fits = stamp; size_fits = size; known = known }, tt),
          )
    ]

kept-cons : (r : Record) (rs : List Record) → kept (r ∷ rs) ≡ kept (r ∷ []) ++ kept rs
kept-cons r rs = ground arith

body-append : (rs ss : List Record) → body (rs ++ ss) ≡ body rs ++ body ss
body-append [] ss = refl
body-append (r ∷ rs) ss = rw (body-append rs ss) (sym (append_assoc _ (body rs) (body ss)))

AllFit-append : (rs ss : List Record) → AllFit rs → AllFit ss → AllFit (rs ++ ss)
AllFit-append [] ss h k = k
AllFit-append (r ∷ rs) ss h k = (h.0, AllFit-append rs ss h.1 k)

write_all-eq-ok :
    (rs : List Record) (file file' : List ℕ)
    → write_all rs file ≡ ok file'
    → (file' ≡ file ++ body (kept rs)) × AllFit (kept rs)
unfolding write_all
write_all-eq-ok [] file file' h = (ground (arith, append-nil file), tt)
write_all-eq-ok (r ∷ rs) file file' h =
    let (mid, one, more) = >>=-eq-ok (write r file) (λ f. write_all rs f) h in
    let (e, fit) = write-eq-ok r file mid one in
    let (e', fit') = write_all-eq-ok rs mid file' more in
    rw kept-cons (
      e'
          ∙ ap (λ (f : List ℕ). f ++ body (kept rs)) e
          ∙ append_assoc file (body (kept (r ∷ []))) (body (kept rs))
          ∙ ap (λ (f : List ℕ). file ++ f) (sym (body-append (kept (r ∷ [])) (kept rs))),
      AllFit-append (kept (r ∷ [])) (kept rs) fit fit',
    )

-- If a session's writes are accepted, reading its file gives back its records in order, without
-- the empty ones.
pub read_capture-record_session :
    (rs : List Record) (file : List ℕ)
    → record_session rs ≡ ok file
    → read_capture file ≡ ok (kept rs)
unfolding record_session
read_capture-record_session rs file h =
    let (e, fit) = write_all-eq-ok rs magic file h in rw e (read_capture-body (kept rs) fit)
