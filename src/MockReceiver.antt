-- ===== src/MockReceiver.antt =====
-- cmd/mockreceiver/main.go: the log of captured requests and the counters of the flaky endpoint.
-- Each method is one step under its mutex.
pub mod Log
pub mod Handlers
pub mod Flaky
use web_hook_project.Prelude.{
  ℕ, zero, suc, List, [], ◌∷◌, ◌++◌, Option, none, some, Text, Map, get, put, text_eq,
  if◌then◌else◌, leb, length, drop,
}
use web_hook_project.Prelude.Int.{ℤ, is_positive, pos_part}
use web_hook_project.Domain.{Time, is_empty}

pub record CapturedRequest : Type 0 where
  pub id : Text
  pub url : Text
  pub method : Text
  pub headers : Map Text (List Text)
  pub signature : Text
  pub webhook_id : Text
  pub body : Text
  pub received_at : Time

pub record RingBuffer : Type 0 where
  pub capacity : ℕ
  pub entries : List CapturedRequest

-- NewRingBuffer
unfoldable pub new_ring_buffer : ℤ → RingBuffer
new_ring_buffer capacity = record {
  capacity = if is_positive capacity then pos_part capacity else 50;
  entries = [];
}

unfoldable pub add : CapturedRequest → RingBuffer → RingBuffer
add r b =
    if leb b.capacity (length b.entries)
    then record b { entries = drop 1 b.entries ++ (r ∷ []) }
    else record b { entries = b.entries ++ (r ∷ []) }

-- GetAll: a copy of the entries
unfoldable pub get_all : RingBuffer → List CapturedRequest
get_all b = b.entries

unfoldable pub clear : RingBuffer → RingBuffer
clear b = record b { entries = [] }

pub record FlakyState : Type 0 where
  pub attempts : Map Text ℕ
  pub global : ℕ

abbrev pub new_flaky_state : FlakyState
new_flaky_state = record { attempts = []; global = 0 }

abbrev pub attempts_of : Text → FlakyState → ℕ
attempts_of key f = elim (get key f.attempts) [ none ↦ 0 | some n ↦ n ]

unfoldable pub next_attempt : Text → FlakyState → ℕ × FlakyState
next_attempt key f = if is_empty key then (suc f.global, record f { global = suc f.global }) else (
  suc (attempts_of key f),
  record f { attempts = put key (suc (attempts_of key f)) f.attempts },
)

unfoldable pub reset : FlakyState → FlakyState
reset f = new_flaky_state
