-- ===== src/Rsmp/Messages/Overflow.antt =====
-- A message that src/rsmp/coder/json.c writes and cannot read: a value of it does not fit the memory
-- that is allocated when it is decoded.
use rsmp_gatewa.Common.{Option, none, some}
use rsmp_gatewa.Rsmp.Coder.{Desc}
use rsmp_gatewa.Rsmp.Coder.Overflow.{IsOverflowing}
use rsmp_gatewa.Rsmp.Descriptions.{MsgDesc}
use rsmp_gatewa.Rsmp.Messages.{BodyMemory, EntryMemory}

-- A message of a described type, one value of which overflows, while all others are read back.
abbrev pub IsOverflowingBody : (b : Option Desc) → BodyMemory b → Type 0
IsOverflowingBody none m = ⊥
IsOverflowingBody (some d) m = IsOverflowing d m

abbrev pub IsOverflowingEntry : (r : Option MsgDesc) → EntryMemory r → Type 0
IsOverflowingEntry none m = ⊥
IsOverflowingEntry (some e) m = IsOverflowingBody e.body m
