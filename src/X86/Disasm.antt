-- ===== src/X86/Disasm.antt =====
-- src/arch/x86/trampoline/disasm.rs: what the trampoline asks of an instruction. The disassembler
-- is the crate `iced_x86`; an `Instruction` is the answers of its accessors that the code calls.
use detour_rs.Base.{ℕ, Bool, true, false, Option, none, some, List, [], ◌∷◌, if◌then◌else◌, ◌&&◌}

-- iced_x86::OpKind, as far as the code tells its values apart.
pub data OpKind : Type 0 where
  near_branch16 near_branch32 near_branch64 memory other_kind : OpKind

-- iced_x86::Register
pub data Register : Type 0 where
  rip other_register : Register

-- iced_x86::Mnemonic
pub data Mnemonic : Type 0 where
  loop loope loopne jecxz jcxz jmp call ret other_mnemonic : Mnemonic

pub record Instruction : Type 0 where
  pub ip : ℕ
  pub len : ℕ
  pub next_ip : ℕ
  pub is_invalid : Bool
  pub op0_kind : OpKind
  pub op_kinds : List OpKind
  pub memory_base : Register
  pub memory_displacement64 : ℕ
  pub near_branch_target : ℕ
  pub mnemonic : Mnemonic

abbrev is_near_branch : OpKind → Bool
is_near_branch near_branch16 = true
is_near_branch near_branch32 = true
is_near_branch near_branch64 = true
is_near_branch memory = false
is_near_branch other_kind = false

unfoldable pub relative_branch_target : Instruction → Option ℕ
relative_branch_target i = if is_near_branch i.op0_kind then some i.near_branch_target else none

abbrev is_memory : OpKind → Bool
is_memory memory = true
is_memory near_branch16 = false
is_memory near_branch32 = false
is_memory near_branch64 = false
is_memory other_kind = false

abbrev is_rip : Register → Bool
is_rip rip = true
is_rip other_register = false

-- op_kinds().find(|op| *op == OpKind::Memory && self.memory_base() == Register::RIP)
abbrev find_rip : List OpKind → Register → Option OpKind
find_rip [] base = none
find_rip (op ∷ ops) base = if is_memory op && is_rip base then some op else find_rip ops base

unfoldable pub rip_operand_target : Instruction → Option ℕ
rip_operand_target i = elim (find_rip i.op_kinds i.memory_base) [
  | none ↦ none
  | some op ↦ some i.memory_displacement64
]

abbrev loop_mnemonic : Mnemonic → Bool
loop_mnemonic loop = true
loop_mnemonic loope = true
loop_mnemonic loopne = true
loop_mnemonic jecxz = true
loop_mnemonic jcxz = true
loop_mnemonic jmp = false
loop_mnemonic call = false
loop_mnemonic ret = false
loop_mnemonic other_mnemonic = false

unfoldable pub is_loop : Instruction → Bool
is_loop i = loop_mnemonic i.mnemonic

unfoldable pub is_unconditional_jump : Instruction → Bool
is_unconditional_jump i = elim i.mnemonic [ jmp ↦ true | _ ↦ false ]

unfoldable pub is_call : Instruction → Bool
is_call i = elim i.mnemonic [ call ↦ true | _ ↦ false ]

unfoldable pub is_return : Instruction → Bool
is_return i = elim i.mnemonic [ ret ↦ true | _ ↦ false ]
