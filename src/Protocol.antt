-- ===== src/Protocol.antt =====
-- crates/prosthetic-conscience/src/protocol.rs: the capabilities that workers declare and jobs
-- require.
use prosthetic_conscience.Prelude.{
  ◌≡◌, ◌↔◌, Bool, true, false, String, Option, none, some, refl, Eq, ◌==◌, if◌then◌else◌, arith,
  string_eq,
}

pub data Capability : Type 0 where
  chat transcription : Capability

abbrev pub capability_beq : Capability → Capability → Bool
capability_beq chat chat = true
capability_beq transcription transcription = true
capability_beq _ _ = false

pub capability_beq_iff : (a b : Capability) → (capability_beq a b ≡ true) ↔ (a ≡ b)
capability_beq_iff a b = ground arith

instance abbrev pub capability_eq : Eq Capability
capability_eq = record { equals = capability_beq; equals_iff = capability_beq_iff }

unfoldable pub as_str : Capability → String
as_str chat = "chat"
as_str transcription = "transcription"

-- `Capability::from_str`; `none` is the error, which carries the text that was refused.
unfoldable pub from_str : String → Option Capability
from_str s =
    if s == "chat" then some chat else if s == "transcription" then some transcription else none

pub from_str-as_str : (c : Capability) → from_str (as_str c) ≡ some c
unfolding from_str as_str
from_str-as_str chat = refl
from_str-as_str transcription = refl
