-- ===== src/Listing/Registers.antt =====
-- The analysis of the registers in deep_u17_analysis.py: `transfer_registers`, `merge_registers`
-- and `register_dataflow`. Register names are in upper case, as in the listing: for `inc`, `dec` and
-- `xch` of a name in lower case the source has a KeyError, and here the row has no effect.
pub mod Laws
use Prim.Native.String.{String}
use sc_adat_appliance.Base.{
  ℕ, ◌+◌, ◌-◌, ◌*◌, ◌%◌, Bool, true, false, not, ◌&&◌, ◌||◌, Option, none, some, List, [], ◌∷◌,
  ◌++◌, ◌==◌, leb, ltb, if◌then◌else◌, length, get_elem?,
}
use sc_adat_appliance.Base.Text.{Text, codes, is_space}
use sc_adat_appliance.Base.Regex.{
  Regex, nothing, edge, one, seq, alt, many, group, search_in, group_of, has, char, lit, lit_i,
  some_of, optional, one_of, one_of_i, hex, is_hex,
}
use sc_adat_appliance.Base.Bytes.{same}
use sc_adat_appliance.Listing.{Row, Names}
use sc_adat_appliance.Listing.Parse.{hex_int, hex_number, starts_with}
use sc_adat_appliance.Listing.Control.{lowered, successors, roots, is_call}
use sc_adat_appliance.Listing.Flow.{Flow, Cell, Outcome, finished, dataflow}
use sc_adat_appliance.Listing.Pointer.{Value, unknown, known, merge_state, same_value, found}

-- REGISTER_NAMES
pub data Register : Type 0 where
  a b r0 r1 r2 r3 r4 r5 r6 r7 : Register

abbrev pub registers : List Register
registers = a ∷ b ∷ r0 ∷ r1 ∷ r2 ∷ r3 ∷ r4 ∷ r5 ∷ r6 ∷ r7 ∷ []

abbrev pub number : Register → ℕ
number a = 0
number b = 1
number r0 = 2
number r1 = 3
number r2 = 4
number r3 = 5
number r4 = 6
number r5 = 7
number r6 = 8
number r7 = 9

-- The dictionary of the ten values.
abbrev pub Registers : Type 0
Registers = Register → Value

unfoldable pub unknown_registers : Registers
unknown_registers r = unknown

-- `result[r] = v`
unfoldable pub assign : Register → Value → Registers → Registers
assign r v s q = if number r == number q then v else s q

abbrev pub entry : Register → Text → Register × Text
entry r t = (r, t)

abbrev names : List (Register × Text)
names =
    entry a (codes "A")
    ∷ entry b (codes "B")
    ∷ entry r0 (codes "R0")
    ∷ entry r1 (codes "R1")
    ∷ entry r2 (codes "R2")
    ∷ entry r3 (codes "R3")
    ∷ entry r4 (codes "R4")
    ∷ entry r5 (codes "R5")
    ∷ entry r6 (codes "R6")
    ∷ entry r7 (codes "R7")
    ∷ []

unfoldable pub named_in : Text → List (Register × Text) → Option Register
named_in t [] = none
named_in t ((r, name) ∷ rest) = if same name t then some r else named_in t rest

abbrev pub register_named : Option Text → Option Register
register_named none = none
register_named (some t) = named_in t names

unfoldable pub upper_case : Text → Text
upper_case [] = []
upper_case (c ∷ cs) = (if leb b'a' c && leb c b'z' then c - 32 else c) ∷ upper_case cs

abbrev pub uppered : Option Text → Option Text
uppered none = none
uppered (some t) = some (upper_case t)

-- `(?:ops)\s+` after a word boundary, and the same under `re.I`.
unfoldable pub op : List String → Regex → Regex
unfolding one_of some_of
op ops rest = seq edge (seq (one_of ops) (seq (some_of (one is_space)) rest))

unfoldable pub op_i : List String → Regex → Regex
unfolding one_of_i some_of
op_i ops rest = seq edge (seq (one_of_i ops) (seq (some_of (one is_space)) rest))

-- `A|B|R[0-7]`, `R[0-7]` and `A|B`; under `re.I` also in lower case.
unfoldable pub digit07 : Regex
digit07 = one (λ c. leb b'0' c && leb c b'7')

unfoldable pub any_register : Regex
unfolding one_of lit digit07
any_register = alt (one_of ("A" ∷ "B" ∷ [])) (seq (lit "R") digit07)

unfoldable pub numbered_i : Regex
unfolding lit_i digit07
numbered_i = seq (lit_i "R") digit07

unfoldable pub a_or_b_i : Regex
unfolding one_of_i
a_or_b_i = one_of_i ("A" ∷ "B" ∷ [])

-- `,\s*`
unfoldable pub comma : Regex → Regex
unfolding char
comma rest = seq (char b',') (seq (many (one is_space)) rest)

-- `direct|@|DPTR|[0-9A-Fa-f]+h` under `re.I`
unfoldable pub memory_i : Regex
unfolding one_of_i lit_i some_of is_hex
memory_i = alt (one_of_i ("direct" ∷ "@" ∷ "DPTR" ∷ [])) (seq (some_of hex) (lit_i "h"))

-- `#([0-9A-Fa-f]{1,3})h`
unfoldable pub imm_re : Regex
unfolding char optional is_hex
imm_re = seq (char b'#') (seq (group 0 (seq hex (optional (seq hex (optional hex))))) (char b'h'))

unfoldable pub parse_imm : Text → Option ℕ
unfolding imm_re hex_number
parse_imm text = hex_int (group_of 0 (search_in imm_re text))

-- One assignment to `result`.
pub data Change : Type 0 where
  forget_all : Change
  forget : Register → Change
  put : Register → ℕ → Change
  copy : Register → Register → Change
  -- `(old + k) & 0xFF`; decrementing adds 255
  add : Register → ℕ → Change
  swap : Register → Change

abbrev pub bumped : ℕ → Value → Value
bumped k unknown = unknown
bumped k (known n) = known ((n + k) % 0x100)

unfoldable pub apply : Change → Registers → Registers
unfolding unknown_registers assign
apply forget_all s = unknown_registers
apply (forget r) s = assign r unknown s
apply (put r n) s = assign r (known n) s
apply (copy r q) s = assign r (s q) s
apply (add r k) s = assign r (bumped k (s r)) s
apply (swap r) s = assign r (s a) (assign a (s r) s)

unfoldable pub apply_all : List Change → Registers → Registers
apply_all [] s = s
apply_all (c ∷ cs) s = apply_all cs (apply c s)

-- The changes of a test that names a register, where it is one of the ten.
abbrev pub on_register : (Register → Change) → Option Register → List Change
on_register f none = []
on_register f (some r) = f r ∷ []

abbrev pub when : Bool → Change → List Change
when true c = c ∷ []
when false c = []

abbrev pub both_registers : Option Register → Option Register → Option (Register × Register)
both_registers none q = none
both_registers (some r) none = none
both_registers (some r) (some q) = some (r, q)

abbrev pub both_put : Option Register → Option ℕ → Option Change
both_put none n = none
both_put (some r) none = none
both_put (some r) (some n) = some (put r n)

-- `group(n)` of a search, as a register.
abbrev pub searched : Regex → ℕ → Text → Option Register
searched r n text = register_named (group_of n (search_in r text))

abbrev pub searched_upper : Regex → ℕ → Text → Option Register
searched_upper r n text = register_named (uppered (group_of n (search_in r text)))

-- `if re.search(test): result[re.search(pattern).group(1).upper()] = UNKNOWN`
abbrev forget_if : Bool → Option Register → List Change
forget_if true r = on_register forget r
forget_if false r = []

abbrev accumulating : List String
accumulating =
    "add" ∷ "addc" ∷ "subb" ∷ "anl" ∷ "orl" ∷ "xrl" ∷ "rr" ∷ "rl" ∷ "rrc" ∷ "rlc" ∷ "swap" ∷ "da"
    ∷ []

-- From the second `mov` test with no early return on.
unfoldable pub later_changes : Text → List Change
unfolding op_i numbered_i a_or_b_i comma memory_i upper_case named_in lowered starts_with
later_changes text =
    on_register forget
      (searched (op_i ("mov" ∷ []) (seq (group 0 numbered_i) (comma memory_i))) 0 text)
    ++ (forget_if (found (op_i ("mov" ∷ []) (seq a_or_b_i (comma memory_i))) text)
          (searched_upper (op_i ("mov" ∷ []) (group 0 a_or_b_i)) 0 text)
        ++ (on_register (λ r. add r (if starts_with (lowered text) (codes "inc") then 1 else 255))
              (searched (op_i ("inc" ∷ "dec" ∷ []) (seq (group 0 numbered_i) edge)) 0 text)
            ++ (when (found (op_i ("movx" ∷ []) (lit_i "A")) text) (forget a)
                ++ (when (found (op_i accumulating (lit_i "A")) text) (forget a)
                    ++ (on_register swap (
                          searched
                            (op_i ("xch" ∷ []) (seq (lit_i "A") (comma (group 0 numbered_i)))) 0
                            text)
                        ++ forget_if
                            (found (op_i ("pop" ∷ []) (seq (alt a_or_b_i numbered_i) edge)) text)
                            (searched_upper (op_i ("pop" ∷ []) (group 0 (alt a_or_b_i numbered_i)))
                              0 text))))))

-- `mov r, q`, where it returns.
abbrev copied : Text → Option (Register × Register) → List Change
copied text none = later_changes text
copied text (some (r, q)) = copy r q ∷ []

unfoldable pub mov_registers : Text → Option (Register × Register)
unfolding op any_register comma named_in
mov_registers text =
    let r =
      op ("mov" ∷ []) (seq (group 0 any_register) (comma (seq (group 1 any_register) edge))) in
    both_registers (searched r 0 text) (searched r 1 text)

unfoldable pub mov_immediate : Text → Option Change
unfolding op any_register comma named_in parse_imm
mov_immediate text =
    both_put (searched (op ("mov" ∷ []) (seq (group 0 any_register) (comma (char b'#')))) 0 text)
      (parse_imm text)

unfoldable pub changes_of : Text → List Change
unfolding is_call mov_immediate mov_registers later_changes op lit
changes_of text = if is_call text then forget_all ∷ [] else elim (mov_immediate text) [
  | some change ↦ change ∷ []
  | none ↦
      when (found (op ("clr" ∷ []) (seq (lit "A") edge)) text) (put a 0)
      ++ copied text (mov_registers text)
]

abbrev pub row_changes : Option Row → List Change
row_changes none = []
row_changes (some row) = changes_of row.text

unfoldable pub transfer_registers : List Row → ℕ → Registers → Registers
unfolding changes_of apply_all apply
transfer_registers rows i s = apply_all (row_changes (get_elem? rows i)) s

-- `merge_registers` of two dictionaries that are set.
unfoldable pub merge_registers : Registers → Registers → Registers
unfolding merge_state
merge_registers old new r = merge_state (old r) (new r)

unfoldable pub same_in : List Register → Registers → Registers → Bool
unfolding same_value
same_in [] s t = true
same_in (r ∷ rs) s t = same_value (s r) (t r) && same_in rs s t

-- A state changes at most ten times: each register once, to UNKNOWN.
unfoldable pub register_flow : List Row → Names → Flow Registers
unfolding merge_registers same_in transfer_registers unknown_registers
register_flow rows labels = record {
  join = merge_registers;
  same = same_in registers;
  unknown = unknown_registers;
  transfer = transfer_registers rows;
  successors = successors rows labels;
  height = 10;
}

unfoldable pub register_dataflow : List Row → Names → Outcome Registers
unfolding register_flow
register_dataflow rows labels =
    dataflow (register_flow rows labels) (length rows) (roots rows labels)
