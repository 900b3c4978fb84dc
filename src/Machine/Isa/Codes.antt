-- ===== src/Machine/Isa/Codes.antt =====
-- The enumerations of machine/BinaryUtils.h, each with its enumerators' values.
use cs16mem_model_vm.Base.{ℕ}

pub data Opcode : Type 0 where
  r_type regimm k_type fp_type j jal addi addiu slti sltiu andi beq bne blez bgtz cache : Opcode
  special2 lb lbu lh lhu lui lw ori xori sb sh sw lwc1 ldc1 swc1 sdc1 ll sc : Opcode

abbrev pub opcode : Opcode → ℕ
opcode Opcode.r_type = 0x0
opcode Opcode.regimm = 0x1
opcode Opcode.k_type = 0x10
opcode Opcode.fp_type = 0x11
opcode Opcode.j = 0x2
opcode Opcode.jal = 0x3
opcode Opcode.addi = 0x8
opcode Opcode.addiu = 0x9
opcode Opcode.slti = 0xa
opcode Opcode.sltiu = 0xb
opcode Opcode.andi = 0xc
opcode Opcode.beq = 0x4
opcode Opcode.bne = 0x5
opcode Opcode.blez = 0x6
opcode Opcode.bgtz = 0x7
opcode Opcode.cache = 0b101111
opcode Opcode.special2 = 0x1c
opcode Opcode.lb = 0x20
opcode Opcode.lbu = 0x24
opcode Opcode.lh = 0x21
opcode Opcode.lhu = 0x25
opcode Opcode.lui = 0xf
opcode Opcode.lw = 0x23
opcode Opcode.ori = 0xd
opcode Opcode.xori = 0xe
opcode Opcode.sb = 0x28
opcode Opcode.sh = 0x29
opcode Opcode.sw = 0x2b
opcode Opcode.lwc1 = 0x31
opcode Opcode.ldc1 = 0x35
opcode Opcode.swc1 = 0x39
opcode Opcode.sdc1 = 0x3d
opcode Opcode.ll = 0x30
opcode Opcode.sc = 0x38

pub data Cp0Funct : Type 0 where
  tlbr tlbwi tlbp tlbwr eret : Cp0Funct

abbrev pub cp0_funct : Cp0Funct → ℕ
cp0_funct Cp0Funct.tlbr = 1
cp0_funct Cp0Funct.tlbwi = 2
cp0_funct Cp0Funct.tlbp = 8
cp0_funct Cp0Funct.tlbwr = 0b110
cp0_funct Cp0Funct.eret = 0x18

pub data Funct : Type 0 where
  mul syscall sync movn break teq vmtunnel add addu and jr jalr nor or slt sltu sll srl : Funct
  sra sllv srlv srav sub subu xor mult div multu divu mfhi mflo mthi mtlo : Funct

abbrev pub funct : Funct → ℕ
funct Funct.mul = 2
funct Funct.syscall = 0xc
funct Funct.sync = 0xf
funct Funct.movn = 0xb
funct Funct.break = 0xd
funct Funct.teq = 0x34
funct Funct.vmtunnel = 0x3f
funct Funct.add = 0x20
funct Funct.addu = 0x21
funct Funct.and = 0x24
funct Funct.jr = 0x8
funct Funct.jalr = 0x9
funct Funct.nor = 0x27
funct Funct.or = 0x25
funct Funct.slt = 0x2a
funct Funct.sltu = 0x2b
funct Funct.sll = 0x0
funct Funct.srl = 0x2
funct Funct.sra = 0x3
funct Funct.sllv = 0x4
funct Funct.srlv = 0x6
funct Funct.srav = 0x7
funct Funct.sub = 0x22
funct Funct.subu = 0x23
funct Funct.xor = 0x26
funct Funct.mult = 0x18
funct Funct.div = 0x1a
funct Funct.multu = 0x19
funct Funct.divu = 0x1b
funct Funct.mfhi = 0x10
funct Funct.mflo = 0x12
funct Funct.mthi = 0x11
funct Funct.mtlo = 0x13

pub data Fmt : Type 0 where
  bc s d w l : Fmt

abbrev pub fmt : Fmt → ℕ
fmt Fmt.bc = 0x8
fmt Fmt.s = 0x10
fmt Fmt.d = 0x11
fmt Fmt.w = 0x14
fmt Fmt.l = 0x15

pub data FpFunct : Type 0 where
  fpabs fpadd fpceq fpclt fpcle fpdiv fpmul fpsub : FpFunct

abbrev pub fp_funct : FpFunct → ℕ
fp_funct FpFunct.fpabs = 0x5
fp_funct FpFunct.fpadd = 0
fp_funct FpFunct.fpceq = 0x32
fp_funct FpFunct.fpclt = 0x3c
fp_funct FpFunct.fpcle = 0x3e
fp_funct FpFunct.fpdiv = 3
fp_funct FpFunct.fpmul = 2
fp_funct FpFunct.fpsub = 1

pub data Register : Type 0 where
  zero at v0 v1 a0 a1 a2 a3 t0 t1 t2 t3 t4 t5 t6 t7 s0 s1 s2 s3 s4 s5 s6 s7 t8 t9 k0 k1 : Register
  gp sp fp ra : Register

abbrev pub register : Register → ℕ
register Register.zero = 0
register Register.at = 1
register Register.v0 = 2
register Register.v1 = 3
register Register.a0 = 4
register Register.a1 = 5
register Register.a2 = 6
register Register.a3 = 7
register Register.t0 = 8
register Register.t1 = 9
register Register.t2 = 10
register Register.t3 = 11
register Register.t4 = 12
register Register.t5 = 13
register Register.t6 = 14
register Register.t7 = 15
register Register.s0 = 16
register Register.s1 = 17
register Register.s2 = 18
register Register.s3 = 19
register Register.s4 = 20
register Register.s5 = 21
register Register.s6 = 22
register Register.s7 = 23
register Register.t8 = 24
register Register.t9 = 25
register Register.k0 = 26
register Register.k1 = 27
register Register.gp = 28
register Register.sp = 29
register Register.fp = 30
register Register.ra = 31

pub data SysRegister : Type 0 where
  index random entrylo0 entrylo1 context pagemask bad_vaddr entryhi status cause epc : SysRegister
  config k_sp k_tf error_epc sys_debug : SysRegister

abbrev pub sys_register : SysRegister → ℕ
sys_register SysRegister.index = 0
sys_register SysRegister.random = 1
sys_register SysRegister.entrylo0 = 2
sys_register SysRegister.entrylo1 = 3
sys_register SysRegister.context = 4
sys_register SysRegister.pagemask = 5
sys_register SysRegister.bad_vaddr = 8
sys_register SysRegister.entryhi = 10
sys_register SysRegister.status = 12
sys_register SysRegister.cause = 13
sys_register SysRegister.epc = 14
sys_register SysRegister.config = 16
sys_register SysRegister.k_sp = 20
sys_register SysRegister.k_tf = 21
sys_register SysRegister.error_epc = 30
sys_register SysRegister.sys_debug = 31
