-- ===== src/Vm/Safety.antt =====
-- Validated code is safe to run: what `validate_` says of the offsets of the instructions.
pub mod Steps
pub mod Ops
pub mod Loop
use randioum.Base.{
  ℕ, zero, suc, ◌+◌, ◌-◌, ◌≤◌, ◌<◌, ◌≡◌, ◌≢◌, refl, ap, sym, ◌∙◌, subst, List, [], ◌∷◌, Bool, true,
  false, not, ◌==◌, ltb, leb, ◌||◌, if◌then◌else◌, length, Option, none, some, some-eq, if-elim,
  Bool-cases, Option-cases, inl, inr, ◌⊎◌, ltb→lt, All, arith,
}
use mathlib.Core.Option
use randioum.Codec.Bytes.{read_u32_le}
use randioum.Vm.Types.{Bytecode, ValidationLimits, Op}
use randioum.Vm.Validate.{
  op_at, operand_size, is_jump, inst_offsets, contains, jumps_ok, pass_fuel, validate_offsets,
}

-- An offset where the program counter may stand: that of an instruction, or the end of the code.
abbrev pub IsBoundary : List ℕ → List ℕ → ℕ → Type 0
IsBoundary code inst p = (contains inst p ≡ true) ⊎ (length code ≤ p)

-- An instruction of validated code: its operand lies in the code, the next instruction begins
-- behind it, and a jump leads to an instruction.
pub record IsInst (code inst : List ℕ) (p : ℕ) (op : Op) : Type 0 where
  pub is_op : op_at code p ≡ some op
  pub fits : p + 1 + operand_size op ≤ length code
  pub next : IsBoundary code inst (p + 1 + operand_size op)
  pub target : is_jump op ≡ true → contains inst (read_u32_le code (p + 1)) ≡ true

-- The first pass, from an offset inside the code on.
inst_offsets_inv :
    (fuel : ℕ) (code : List ℕ) (pc : ℕ) (offs : List ℕ)
    → inst_offsets (suc fuel) code pc ≡ some offs
    → pc < length code
    → (op : Op) × (rest : List ℕ) × (op_at code pc ≡ some op)
      × (pc + 1 + operand_size op ≤ length code)
      × (inst_offsets fuel code (pc + 1 + operand_size op) ≡ some rest)
      × (pc ∷ rest ≡ offs)
unfolding inst_offsets
inst_offsets_inv fuel code pc offs e h =
    let more : ltb pc (length code) ≡ true = ground arith in
    elim (Option-cases (op_at code pc)) [
      | inl n ↦ cc (rw (n, inst_offsets) at (rw (more, inst_offsets) at e))
      | inr (op, o) ↦
          let e' = rw (o, inst_offsets) at (rw (more, inst_offsets) at e) in
          elim (Bool-cases (ltb (length code) (pc + 1 + operand_size op))) [
            | inl cut ↦ cc (rw (cut, inst_offsets) at e')
            | inr whole ↦
                let e'' = rw (whole, inst_offsets) at e' in
                elim (Option-cases (inst_offsets fuel code (pc + 1 + operand_size op))) [
                  | inl n ↦ cc (rw n at e'')
                  | inr (rest, r) ↦ (op, rest, o, ground arith, r, some-eq (rw r at e''))
                ]
          ]
    ]

-- The second pass at an instruction.
jumps_ok_inv :
    (fuel : ℕ) (code inst : List ℕ) (pc : ℕ) (op : Op)
    → jumps_ok (suc fuel) code inst pc ≡ true
    → pc < length code
    → op_at code pc ≡ some op
    → (is_jump op ≡ true → contains inst (read_u32_le code (pc + 1)) ≡ true)
      × (jumps_ok fuel code inst (pc + 1 + operand_size op) ≡ true)
unfolding jumps_ok
jumps_ok_inv fuel code inst pc op e h o =
    let more : ltb pc (length code) ≡ true = ground arith in
    let e' = rw (o, jumps_ok) at (rw (more, jumps_ok) at e) in
    elim (Bool-cases (is_jump op)) [
      | inr plain ↦ (λ j. cc, rw (plain, jumps_ok) at e')
      | inl jump ↦
          let e2 = rw (jump, jumps_ok) at e' in
          elim (Bool-cases (leb (length code) (read_u32_le code (pc + 1)))) [
            | inl out ↦ cc (rw (out, jumps_ok) at e2)
            | inr inside ↦
                let e3 = rw (inside, jumps_ok) at e2 in
                elim (Bool-cases (contains inst (read_u32_le code (pc + 1)))) [
                  | inr missing ↦ cc (rw (missing, jumps_ok) at e3)
                  | inl found ↦ (λ j. found, rw (found, jumps_ok) at e3)
                ]
          ]
    ]

no_offsets :
    (fuel : ℕ) (code : List ℕ) (pc : ℕ) (offs : List ℕ)
    → inst_offsets fuel code pc ≡ some offs
    → length code ≤ pc
    → [] ≡ offs
unfolding inst_offsets
no_offsets zero code pc offs e h = cc
no_offsets (suc fuel) code pc offs e h =
    let end : ltb pc (length code) ≡ false = ground arith in some-eq (rw (end, inst_offsets) at e)

-- An offset inside the code from which the first pass starts is among those that it collects.
starts :
    (fuel : ℕ) (code : List ℕ) (pc : ℕ) (offs : List ℕ)
    → inst_offsets fuel code pc ≡ some offs
    → IsBoundary code offs pc
unfolding contains
starts zero code pc offs e = absurd (no_fuel e)
  where
    no_fuel : inst_offsets zero code pc ≡ some offs → ⊥
    no_fuel p = unfold inst_offsets in cc
starts (suc fuel) code pc offs e = elim (Bool-cases (ltb pc (length code))) [
  | inr end ↦ inr (ground arith)
  | inl more ↦
      let (op, rest, o, fits, r, same) = inst_offsets_inv fuel code pc offs e (ltb→lt _ _ more) in
      inl (subst (λ l. contains l pc ≡ true) same (ground arith))
]

contains-cons :
    (x : ℕ) (xs : List ℕ) (p : ℕ) → contains (x ∷ xs) p ≡ true → (p ≡ x) ⊎ (contains xs p ≡ true)
unfolding contains
contains-cons x xs p h = ground arith

contains-tail : (x : ℕ) (xs : List ℕ) (p : ℕ) → contains xs p ≡ true → contains (x ∷ xs) p ≡ true
unfolding contains
contains-tail x xs p h = ground arith

contains-head : (x : ℕ) (xs : List ℕ) → contains (x ∷ xs) x ≡ true
unfolding contains
contains-head x xs = ground arith

-- The two passes walk over the same offsets, and each of them is an instruction.
walk :
    (fuel : ℕ) (code inst : List ℕ) (pc : ℕ) (offs : List ℕ)
    → inst_offsets fuel code pc ≡ some offs
    → jumps_ok fuel code inst pc ≡ true
    → ((q : ℕ) → contains offs q ≡ true → contains inst q ≡ true)
    → (p : ℕ) → contains offs p ≡ true
    → (op : Op) × IsInst code inst p op
walk zero code inst pc offs e j sub p c = absurd (unfold inst_offsets in cc)
walk (suc fuel) code inst pc offs e j sub p c = elim (Bool-cases (ltb pc (length code))) [
  | inr end ↦
      let none_left : [] ≡ offs = no_offsets (suc fuel) code pc offs e (ground arith) in
      absurd (unfold contains in cc (subst (λ l. contains l p ≡ true) (sym none_left) c))
  | inl more ↦
      let (op, rest, o, fits, r, same) = inst_offsets_inv fuel code pc offs e (ltb→lt _ _ more) in
      let (target, j') = jumps_ok_inv fuel code inst pc op j (ltb→lt _ _ more) o in
      let sub' : (q : ℕ) → contains rest q ≡ true → contains inst q ≡ true =
        λ q h. sub q (subst (λ l. contains l q ≡ true) same (contains-tail pc rest q h)) in
      elim (contains-cons pc rest p (subst (λ l. contains l p ≡ true) (sym same) c)) [
        | inr later ↦ walk fuel code inst (pc + 1 + operand_size op) rest r j' sub' p later
        | inl here ↦ (
          op,
          subst (λ q. IsInst code inst q op) (sym here)
              (record {
                is_op = o;
                fits = fits;
                next = elim (starts fuel code (pc + 1 + operand_size op) rest r) [
                  | inl known ↦ inl (sub' _ known)
                  | inr end ↦ inr end
                ];
                target = target;
              }),
        )
      ]
]

-- What `validate_` guarantees.
pub record IsValidated (code inst : List ℕ) : Type 0 where
  pub entry : IsBoundary code inst 0
  pub insts : (p : ℕ) → contains inst p ≡ true → (op : Op) × IsInst code inst p op

pub validate_offsets-IsValidated :
    (limits : ValidationLimits) (bc : Bytecode) (inst : List ℕ)
    → validate_offsets limits bc ≡ some inst
    → IsValidated bc.code inst
unfolding validate_offsets
validate_offsets-IsValidated limits bc inst e = elim (Bool-cases (bc.version == 1)) [
  | inr other ↦ cc (rw (other, validate_offsets) at e)
  | inl one ↦
      let e1 = rw (one, validate_offsets) at e in
      elim (Bool-cases (ltb limits.max_code_bytes (length bc.code))) [
        | inl long ↦ cc (rw (long, validate_offsets) at e1)
        | inr short ↦
            let e2 = rw (short, validate_offsets) at e1 in
            elim (Option-cases (inst_offsets (pass_fuel bc.code) bc.code 0)) [
              | inl bad ↦ cc (rw bad at e2)
              | inr (offs, o) ↦
                  let e3 = rw o at e2 in
                  elim (Bool-cases (jumps_ok (pass_fuel bc.code) bc.code offs 0)) [
                    | inr wrong ↦ cc (rw wrong at e3)
                    | inl right ↦ subst (IsValidated bc.code) (some-eq (rw right at e3)) (record {
                      entry = starts (pass_fuel bc.code) bc.code 0 offs o;
                      insts = walk (pass_fuel bc.code) bc.code offs 0 offs o right (λ q h. h);
                    })
                  ]
            ]
      ]
]
