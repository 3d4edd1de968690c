-- ===== src/SdBus.antt =====
-- include/sdbus.h and src/sdbus.cpp: the wrappers round sd-bus, with the references to messages and
-- buses that they hold.
pub mod Dialogue
pub mod Leads
use runw.Common.{
  ℤ, pos, negsuc, ℕ, suc, Bool, true, false, List, [], ◌∷◌, ◌++◌, Text, ◌+◌, ◌-◌, if◌then◌else◌,
}
use Dialogue.{Expected, value, unexpected, Talk}

-- A value that is appended to a message.
pub data Arg : Type 0 where
  text : Text → Arg
  num : ℤ → Arg

-- The calls of the library. Those on a message are on the one that `Msg` holds.
pub data Call : Type 0 where
  open_user open_system close_container : Call
  match_signal new_method_call : Text → Text → Text → Text → Call
  append : Text → List Arg → Call
  open_container : ℕ → Text → Call
  send : ℕ → Call
  read : Text → Call

-- What the library answers: the code that the function returns, the errno of its error object, and the
-- text that it reads.
pub record Answer : Type 0 where
  pub code : ℤ
  pub errno : ℤ
  pub object : Text

-- The library's answer to the last call of a history.
abbrev pub Library : Type 0
Library = List Call → Answer

-- The calls so far, whether `Msg` holds a message and `Bus` a bus, and how many references to messages
-- and to buses the process has taken and not given back.
pub record Session : Type 0 where
  pub calls : List Call
  pub held : Bool
  pub references : ℕ
  pub bus_held : Bool
  pub bus_references : ℕ
  -- References given back that the process never took.
  pub over_dropped : ℕ

abbrev pub new_session : Session
new_session = record {
  calls = [];
  held = false;
  references = 0;
  bus_held = false;
  bus_references = 0;
  over_dropped = 0;
}

-- `-Err` of a negative code.
abbrev pub negated : ℤ → ℤ
negated (pos n) = pos 0
negated (negsuc n) = pos (suc n)

-- `if (const int Err = ...; Err < 0) { return unexpected(-Err); } return {};`
abbrev pub from_code : ℤ → Expected (Unit {0})
from_code (pos n) = value tt
from_code (negsuc n) = unexpected (pos (suc n))

abbrev pub called : Call → Session → Session
called c s = record s { calls = s.calls ++ c ∷ [] }

unfoldable pub checked : Library → Call → Talk Session (Unit {0})
checked lib c s = (from_code (lib (called c s).calls).code, called c s)

-- The destructor of a message, which gives its reference back.
abbrev pub drop_message : Session → Session
drop_message s = if s.held then record s { held = false; references = s.references - 1 } else s

-- `Msg = std::move(*Res)`, with the reference that the library has given.
abbrev pub take_message : Session → Session
take_message s = record (drop_message s) {
  held = true;
  references = (drop_message s).references + 1;
}

abbrev pub taking : Expected (Unit {0}) × Session → Expected (Unit {0}) × Session
taking (value u, s) = (value tt, take_message s)
taking (unexpected e, s) = (unexpected e, s)

unfoldable pub method_call : Library → Text → Text → Text → Text → Talk Session (Unit {0})
unfolding checked
method_call lib destination path interface member s =
    taking (checked lib (new_method_call destination path interface member) s)

-- `SDBus::call`, and the assignment of its result. The message is released: `Msg` has it no more, and
-- nothing gives its reference back.
abbrev pub called_with : Answer → Session → Expected (Unit {0}) × Session
called_with a s = elim a.code [
  | pos n ↦ (value tt, take_message s)
  | negsuc n ↦ (unexpected a.errno, s)
]

unfoldable pub call : Library → ℕ → Talk Session (Unit {0})
call lib usec s =
    let s' = called (send usec) (record s { held = false }) in called_with (lib s'.calls) s'

abbrev pub read_result : Answer → Expected Text
read_result a = elim a.code [ pos n ↦ value a.object | negsuc n ↦ unexpected (pos (suc n)) ]

unfoldable pub read_object : Library → Text → Talk Session Text
read_object lib types s = (read_result (lib (called (read types) s).calls), called (read types) s)

-- `Bus = std::move(*Res)`.
abbrev pub take_bus : Session → Session
take_bus s = record s { bus_held = true; bus_references = s.bus_references + 1 }

abbrev pub taking_bus : Expected (Unit {0}) × Session → Expected (Unit {0}) × Session
taking_bus (value u, s) = (value tt, take_bus s)
taking_bus (unexpected e, s) = (unexpected e, s)

unfoldable pub default_user : Library → Talk Session (Unit {0})
unfolding checked
default_user lib s = taking_bus (checked lib open_user s)

unfoldable pub default_system : Library → Talk Session (Unit {0})
unfolding checked
default_system lib s = taking_bus (checked lib open_system s)

-- The destructors of `Msg` and `Bus`.
abbrev pub drop_bus : Session → Session
drop_bus s =
    if s.bus_held then record s { bus_held = false; bus_references = s.bus_references - 1 } else s

-- `SDBus::matchSignalAsyncCallback`: the library lends the message to the callback, but `Message` takes
-- it without a reference of its own and its destructor gives one back.
abbrev pub match_signal_async_callback : Session → Session
match_signal_async_callback s = record s { over_dropped = s.over_dropped + 1 }
