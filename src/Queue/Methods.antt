-- ===== src/Queue/Methods.antt =====
-- Each method on a stream and a group that exist, as an equation.
use web_hook_project.Prelude.{
  codes, text_beq, ℕ, ◌+◌, true, false, List, ◌∷◌, none, some, ◌≡◌, arith, get, Text, text_eq,
  length, ltb,
}
use web_hook_project.Prelude.Errors.{Error, ok, err}
use web_hook_project.Prelude.Int.{ℤ}
use web_hook_project.Prelude.Sorting.{Ranging}
use web_hook_project.Domain.{Time, is_empty}
use web_hook_project.Queue.{
  PendingEntry, Stream, Group, MemoryStreamQueue, stream_of, set_stream, group_of, set_group,
  create_consumer_group, read_round, ack_event, auto_claim, ack_locked, deliver, batch, drop_all,
  claim, count_or_ten, new_group, start_index,
}

-- What the methods make of a stream and a group that exist.
module _ (s g : Text) (s_full : is_empty s ≡ false) (g_full : is_empty g ≡ false) where
  module _ (q : MemoryStreamQueue) (e : Error) where
    pub create_ended : (from : Text) → create_consumer_group (some e) s g from q ≡ (err e, q)
    unfolding create_consumer_group
    create_ended from = ground arith

    pub ack_ended : (id : Text) (ids : List Text) → ack_event (some e) s g (id ∷ ids) q ≡ (err e, q)
    unfolding ack_event
    ack_ended id ids = ground arith

    pub claim_ended :
        (r : Ranging (Text × PendingEntry)) (now : Time) (consumer : Text) (min_idle count : ℤ)
        → auto_claim r (some e) now s g consumer min_idle count q ≡ (err e, q)
    unfolding auto_claim
    claim_ended r now consumer min_idle count = ground arith

  module _ (q : MemoryStreamQueue) (st : Stream) (gr : Group)
      (at_stream : get s q.streams ≡ some st) (at_group : get g st.groups ≡ some gr) where
    pub create_again :
        (from : Text) → create_consumer_group none s g from q ≡ (ok tt, set_stream s st q)
    unfolding create_consumer_group stream_of
    create_again from = ground arith

    pub ack_present :
        (id : Text) (ids : List Text)
        → ack_event none s g (id ∷ ids) q ≡ (
          ok tt,
          set_stream s (set_group g (record gr { pending = drop_all (id ∷ ids) gr.pending }) st) q,
        )
    unfolding ack_event ack_locked
    ack_present id ids = ground arith

    pub claim_present :
        (r : Ranging (Text × PendingEntry)) (now : Time) (consumer : Text) (min_idle count : ℤ)
        → (auto_claim r none now s g consumer min_idle count q).1
          ≡ set_stream s
              (set_group g
                (record gr {
                  pending =
                      (claim now min_idle consumer
                        (count_or_ten count)
                        (r.visit gr.pending)
                        gr.pending).1;
                })
                st)
              q
    unfolding auto_claim
    claim_present r now consumer min_idle count = ground arith

    pub read_new :
        (now : Time) (consumer : Text) (count : ℕ)
        → ltb gr.next_idx (length st.messages) ≡ true
        → read_round now s g consumer count q ≡ (
          some (batch count st gr),
          set_stream s
              (set_group g
                (record {
                  next_idx = gr.next_idx + length (batch count st gr);
                  pending = deliver now consumer (batch count st gr) gr.pending;
                })
                st)
              q,
        )
    unfolding read_round stream_of group_of
    read_new now consumer count new = rw (at_stream, at_group, new)

    pub read_none :
        (now : Time) (consumer : Text) (count : ℕ)
        → ltb gr.next_idx (length st.messages) ≡ false
        → read_round now s g consumer count q ≡ (none, set_stream s (set_group g gr st) q)
    unfolding read_round stream_of group_of
    read_none now consumer count old = rw (at_stream, at_group, old)

  -- A group that is created at the start of a stream.
  pub create_first :
      (q : MemoryStreamQueue)
      → get g (stream_of s q).groups ≡ none
      → create_consumer_group none s g (codes "0") q
        ≡ (ok tt, set_stream s (set_group g (new_group 0) (stream_of s q)) q)
  unfolding create_consumer_group start_index text_beq
  create_first q fresh = ground arith
