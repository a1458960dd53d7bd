-- ===== src/Queue/Pending.antt =====
-- Which message ids are pending (delivered and not acknowledged), through the loops on the map.
use web_hook_project.Prelude.Sorting.{Ranging, All-visit}
use web_hook_project.Prelude.{
  ℕ, zero, suc, ◌≤◌, Bool, true, false, not, ◌&&◌, ◌||◌, List, [], ◌∷◌, Option, none, some, ◌≡◌,
  refl, arith, Map, get, put, del, get-put, get-del, Text, text_eq, text_beq_iff, beq_refl, length,
  ◌==◌, All,
}
use web_hook_project.Prelude.Int.{ℤ}
use web_hook_project.Domain.{Time}
use web_hook_project.Queue.{QueueMessage, PendingEntry, deliver, drop_all, claim, is_idle}

abbrev Bool-set : IsSet Bool
Bool-set = hlevel

abbrev is_some : Option PendingEntry → Bool
is_some none = false
is_some (some e) = true

-- Whether an id is pending.
abbrev pub held : Text → Map Text PendingEntry → Bool
held j p = is_some (get j p)

-- Whether an id is that of one of the messages, or in a list.
unfoldable pub among : Text → List QueueMessage → Bool
among j [] = false
among j (msg ∷ msgs) = j == msg.id || among j msgs

unfoldable pub listed : Text → List Text → Bool
listed j [] = false
listed j (id ∷ ids) = j == id || listed j ids

-- A read makes the ids of its messages pending, and takes none off.
pub held-deliver :
    (now : Time) (consumer : Text) (msgs : List QueueMessage) (p : Map Text PendingEntry) (j : Text)
    → held j (deliver now consumer msgs p) ≡ (among j msgs || held j p)
unfolding deliver among
held-deliver now consumer [] p j = refl
held-deliver now consumer (msg ∷ msgs) p j =
    let e : PendingEntry = record { msg = msg; delivery_time = now; consumer = consumer } in
    ground (arith, held-deliver now consumer msgs (put msg.id e p) j, get-put msg.id j e p)

-- An acknowledgement takes exactly its ids off.
pub held-drop_all :
    (ids : List Text) (p : Map Text PendingEntry) (j : Text)
    → held j (drop_all ids p) ≡ (held j p && not (listed j ids))
unfolding drop_all listed
held-drop_all [] p j = ground arith
held-drop_all (id ∷ ids) p j = ground (arith, held-drop_all ids (del id p) j, get-del id j p)

All-held-put :
    (id : Text) (x : PendingEntry) (p : Map Text PendingEntry) (es : List (Text × PendingEntry))
    → All (λ e. held e.0 p ≡ true) es
    → All (λ e. held e.0 (put id x p) ≡ true) es
All-held-put id x p [] h = tt
All-held-put id x p (e ∷ es) h =
    (ground (arith, get-put id e.0 x p, h.0), All-held-put id x p es h.1)

-- Claiming moves pending entries to another consumer, and neither adds nor takes off an id.
pub held-claim :
    (now : Time) (min_idle : ℤ) (consumer : Text) (n : ℕ) (es : List (Text × PendingEntry))
    (p : Map Text PendingEntry) (j : Text)
    → All (λ e. held e.0 p ≡ true) es
    → held j (claim now min_idle consumer n es p).1 ≡ held j p
unfolding claim
held-claim now min_idle consumer zero es p j h = refl
held-claim now min_idle consumer (suc n) [] p j h = refl
held-claim now min_idle consumer (suc n) ((id, e) ∷ es) p j h =
    let x : PendingEntry = record e { delivery_time = now; consumer = consumer } in
    ground (
      arith,
      held-claim now min_idle consumer n es (put id x p) j (All-held-put id x p es h.1),
      held-claim now min_idle consumer (suc n) es p j h.1,
      get-put id j x p,
      text_beq_iff j id,
    )

-- No more messages are claimed than were asked for.
pub length-claim :
    (now : Time) (min_idle : ℤ) (consumer : Text) (n : ℕ) (es : List (Text × PendingEntry))
    (p : Map Text PendingEntry)
    → length (claim now min_idle consumer n es p).0 ≤ n
unfolding claim
length-claim now min_idle consumer zero es p = omega arith
length-claim now min_idle consumer (suc n) [] p = omega arith
length-claim now min_idle consumer (suc n) ((id, e) ∷ es) p = ground (
  arith,
  length-claim now min_idle consumer n es
      (put id (record e { delivery_time = now; consumer = consumer }) p),
  length-claim now min_idle consumer (suc n) es p,
)

-- Whether a message id stands in an entry that has been idle for long enough.
unfoldable pub idle_among : Time → ℤ → Text → List (Text × PendingEntry) → Bool
idle_among now min_idle j [] = false
idle_among now min_idle j ((id, e) ∷ es) =
    (is_idle now min_idle e && j == e.msg.id) || idle_among now min_idle j es

-- Only messages that have been idle for long enough are claimed.
pub among-claim :
    (now : Time) (min_idle : ℤ) (consumer : Text) (n : ℕ) (es : List (Text × PendingEntry))
    (p : Map Text PendingEntry) (j : Text)
    → among j (claim now min_idle consumer n es p).0 ≡ true
    → idle_among now min_idle j es ≡ true
unfolding claim among idle_among
among-claim now min_idle consumer zero es p j h = absurd (cc)
among-claim now min_idle consumer (suc n) [] p j h = absurd (cc)
among-claim now min_idle consumer (suc n) ((id, e) ∷ es) p j h = ground (
  arith,
  among-claim now min_idle consumer n es
      (put id (record e { delivery_time = now; consumer = consumer }) p) j,
  among-claim now min_idle consumer (suc n) es p j,
)

held-cons :
    (id : Text) (x : PendingEntry) (p : Map Text PendingEntry) (es : List (Text × PendingEntry))
    → All (λ e. held e.0 p ≡ true) es
    → All (λ e. held e.0 ((id, x) ∷ p) ≡ true) es
unfolding get
held-cons id x p [] h = tt
held-cons id x p (e ∷ es) h = (ground (arith, h.0), held-cons id x p es h.1)

held-entries : (p : Map Text PendingEntry) → All (λ e. held e.0 p ≡ true) p
unfolding get
held-entries [] = tt
held-entries ((id, x) ∷ p) = (ground (arith, beq_refl id), held-cons id x p p (held-entries p))

-- Every entry that a visit meets is pending.
pub held-visit :
    (r : Ranging (Text × PendingEntry)) (p : Map Text PendingEntry)
    → All (λ e. held e.0 p ≡ true) (r.visit p)
held-visit r p = All-visit (λ e. held e.0 p ≡ true) (λ e. Bool-set _ _) r p (held-entries p)
