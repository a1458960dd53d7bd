-- ===== src/Queue/Soundness.antt =====
-- Every history of one stream and one group keeps the record of what was delivered.
use web_hook_project.Prelude.{
  ℕ, suc, ◌+◌, ◌≤◌, true, false, ◌||◌, List, [], ◌∷◌, ◌++◌, Option, none, some, ◌≡◌, inl, inr, refl,
  sym, ap, ◌∙◌, arith, Map, get, put, get-put_self, Text, text_eq, length, length-append,
  length-take, length-drop, take, drop, take-append_of_le, take-extend, append_assoc, append-nil,
  Bool-cases, ltb,
}
use web_hook_project.Prelude.Errors.{Context}
use web_hook_project.Prelude.Int.{ℤ}
use web_hook_project.Prelude.Sorting.{Ranging}
use web_hook_project.Domain.{Time, Event, is_empty}
use web_hook_project.Queue.{
  QueueMessage, PendingEntry, Stream, Group, MemoryStreamQueue, stream_of, set_stream, group_of,
  set_group, publish_event, ack_event, with_message, message_of, message_id, deliver, batch,
  drop_all, count_or_ten,
}
use web_hook_project.Queue.Pending.{
  held, among, listed, held-deliver, held-drop_all, held-claim, held-visit,
}
use web_hook_project.Queue.{new_group}
use web_hook_project.Queue.History.{
  Op, publishes, reads, acks, claims, creates, Trace, step, run, IsSound, begun,
}
use web_hook_project.Queue.Methods.{
  create_ended, ack_ended, claim_ended, create_again, ack_present, claim_present, read_new,
  read_none, create_first,
}

module _ (s g : Text) (s_full : is_empty s ≡ false) (g_full : is_empty g ≡ false) where
  publish-IsSound :
      (start : ℕ) (ctx : Context) (now : Time) (e : Option Event) (t : Trace)
      → IsSound s g start t
      → IsSound s g start (step s g (publishes ctx now e) t)
  unfolding step publish_event set_stream stream_of
  publish-IsSound start ctx now none t h = h
  publish-IsSound start (some x) now (some e) t h = rw s_full h
  publish-IsSound start none now (some e) t h =
      let id = message_id now (suc t.queue.seq) in
      let st' = with_message (message_of now id e) h.st in
      rw (s_full, h.at_stream)
        (record {
          st = st';
          gr = h.gr;
          at_stream = get-put_self s st' t.queue.streams;
          at_group = h.at_group;
          in_order =
              rw
                (
                  take-append_of_le start h.st.messages (message_of now id e ∷ [])
                      (omega (arith, h.started, h.cursor)),
                  take-append_of_le h.gr.next_idx h.st.messages (message_of now id e ∷ []) h.cursor,
                )
                h.in_order;
          started = h.started;
          cursor = omega (arith, h.cursor, length-append h.st.messages (message_of now id e ∷ []));
          unacked = h.unacked;
        })

  create-IsSound :
      (start : ℕ) (ctx : Context) (from : Text) (t : Trace)
      → IsSound s g start t
      → IsSound s g start (step s g (creates ctx from) t)
  unfolding step set_stream
  create-IsSound start (some e) from t h = rw (create_ended s g s_full g_full t.queue e from) h
  create-IsSound start none from t h =
      rw (create_again s g s_full g_full t.queue h.st h.gr h.at_stream h.at_group from) (record {
        st = h.st;
        gr = h.gr;
        at_stream = get-put_self s h.st t.queue.streams;
        at_group = h.at_group;
        in_order = h.in_order;
        started = h.started;
        cursor = h.cursor;
        unacked = h.unacked;
      })

  -- A state whose group was replaced by one at the same index.
  module _ (start : ℕ) (t : Trace) (h : IsSound s g start t) (p : Map Text PendingEntry)
      (ids : List Text)
      (keeps : (j : Text)
        → among j t.delivered ≡ true
        → (held j p || listed j (ids ++ t.acked)) ≡ true) where
    abbrev gr' : Group
    gr' = record h.gr { pending = p }

    regroup-IsSound :
        IsSound s g start
          (record t { queue = set_stream s (set_group g gr' h.st) t.queue; acked = ids ++ t.acked })
    unfolding set_stream set_group
    regroup-IsSound = record {
      st = record h.st { groups = put g gr' h.st.groups };
      gr = gr';
      at_stream = get-put_self s _ t.queue.streams;
      at_group = get-put_self g gr' h.st.groups;
      in_order = h.in_order;
      started = h.started;
      cursor = h.cursor;
      unacked = keeps;
    }

  listed-append :
      (j : Text) (xs ys : List Text) → listed j (xs ++ ys) ≡ (listed j xs || listed j ys)
  unfolding listed
  listed-append j [] ys = refl
  listed-append j (x ∷ xs) ys = ground (arith, listed-append j xs ys)

  ack-IsSound :
      (start : ℕ) (ctx : Context) (ids : List Text) (t : Trace)
      → IsSound s g start t
      → IsSound s g start (step s g (acks ctx ids) t)
  unfolding step ack_event
  ack-IsSound start ctx [] t h = h
  ack-IsSound start (some e) (id ∷ ids) t h = rw (ack_ended s g s_full g_full t.queue e id ids) h
  ack-IsSound start none (id ∷ ids) t h =
      rw (ack_present s g s_full g_full t.queue h.st h.gr h.at_stream h.at_group id ids) (
        regroup-IsSound start t h (drop_all (id ∷ ids) h.gr.pending) (id ∷ ids) λ j read. ground (
          arith,
          h.unacked j,
          held-drop_all (id ∷ ids) h.gr.pending j,
          listed-append j (id ∷ ids) t.acked,
        ))

  claim-IsSound :
      (start : ℕ) (r : Ranging (Text × PendingEntry)) (ctx : Context) (now : Time) (consumer : Text)
      (min_idle count : ℤ) (t : Trace)
      → IsSound s g start t
      → IsSound s g start (step s g (claims r ctx now consumer min_idle count) t)
  unfolding step
  claim-IsSound start r (some e) now consumer min_idle count t h =
      rw (claim_ended s g s_full g_full t.queue e r now consumer min_idle count) h
  claim-IsSound start r none now consumer min_idle count t h =
      rw
        (claim_present s g s_full g_full t.queue h.st h.gr h.at_stream h.at_group r now consumer
          min_idle count)
        (regroup-IsSound start t h _ [] λ j read. ground (
          arith,
          h.unacked j,
          held-claim now min_idle consumer (count_or_ten count) (r.visit h.gr.pending) h.gr.pending
              j (held-visit r h.gr.pending),
        ))

  among-append :
      (j : Text) (xs ys : List QueueMessage) → among j (xs ++ ys) ≡ (among j xs || among j ys)
  unfolding among
  among-append j [] ys = refl
  among-append j (x ∷ xs) ys = ground (arith, among-append j xs ys)

  read_more-IsSound :
      (start : ℕ) (now : Time) (consumer : Text) (count : ℕ) (t : Trace) (h : IsSound s g start t)
      → IsSound s g start (record t {
        queue =
            set_stream s
              (set_group g
                (record {
                  next_idx = h.gr.next_idx + length (batch count h.st h.gr);
                  pending = deliver now consumer (batch count h.st h.gr) h.gr.pending;
                })
                h.st)
              t.queue;
        delivered = t.delivered ++ batch count h.st h.gr;
      })
  unfolding set_stream set_group
  read_more-IsSound start now consumer count t h =
      let found = batch count h.st h.gr in
      let more : Group = record {
        next_idx = h.gr.next_idx + length found;
        pending = deliver now consumer found h.gr.pending;
      } in
      record {
        st = record h.st { groups = put g more h.st.groups };
        gr = more;
        at_stream = get-put_self s _ t.queue.streams;
        at_group = get-put_self g more h.st.groups;
        in_order =
            sym (append_assoc (take start h.st.messages) t.delivered found)
            ∙ ap (λ xs. xs ++ found) h.in_order
            ∙ sym (take-extend h.gr.next_idx count h.st.messages);
        started = omega (arith, h.started);
        cursor = omega (
          arith,
          h.cursor,
          length-take count (drop h.gr.next_idx h.st.messages),
          length-drop h.gr.next_idx h.st.messages,
        );
        unacked = λ j read. ground (
          arith,
          h.unacked j,
          among-append j t.delivered found,
          held-deliver now consumer found h.gr.pending j,
        );
      }

  read-IsSound :
      (start : ℕ) (now : Time) (consumer : Text) (count : ℕ) (t : Trace)
      → IsSound s g start t
      → IsSound s g start (step s g (reads now consumer count) t)
  unfolding step
  read-IsSound start now consumer count t h =
      elim (Bool-cases (ltb h.gr.next_idx (length h.st.messages))) [
        | inl new ↦
            rw
              (read_new s g s_full g_full t.queue h.st h.gr h.at_stream h.at_group now consumer
                count new)
              (read_more-IsSound start now consumer count t h)
        | inr old ↦
            rw
              (
                read_none s g s_full g_full t.queue h.st h.gr h.at_stream h.at_group now consumer
                    count old,
                append-nil,
              )
              (regroup-IsSound start t h h.gr.pending [] h.unacked)
      ]

  step-IsSound :
      (start : ℕ) (op : Op) (t : Trace) → IsSound s g start t → IsSound s g start (step s g op t)
  step-IsSound start (publishes ctx now e) t h = publish-IsSound start ctx now e t h
  step-IsSound start (reads now consumer count) t h = read-IsSound start now consumer count t h
  step-IsSound start (acks ctx ids) t h = ack-IsSound start ctx ids t h
  step-IsSound start (claims r ctx now consumer min_idle count) t h =
      claim-IsSound start r ctx now consumer min_idle count t h
  step-IsSound start (creates ctx from) t h = create-IsSound start ctx from t h

  run-IsSound :
      (start : ℕ) (ops : List Op) (t : Trace)
      → IsSound s g start t
      → IsSound s g start (run s g ops t)
  unfolding run
  run-IsSound start [] t h = h
  run-IsSound start (op ∷ ops) t h =
      run-IsSound start ops (step s g op t) (step-IsSound start op t h)

  begun-IsSound :
      (q : MemoryStreamQueue) → get g (stream_of s q).groups ≡ none → IsSound s g 0 (begun s g q)
  unfolding set_stream set_group among
  begun-IsSound q fresh =
      let st : Stream = record (stream_of s q) {
        groups = put g (new_group 0) (stream_of s q).groups;
      } in
      rw (create_first s g s_full g_full q fresh) (record {
        st = st;
        gr = new_group 0;
        at_stream = get-put_self s st q.streams;
        at_group = get-put_self g (new_group 0) (stream_of s q).groups;
        in_order = refl;
        started = omega arith;
        cursor = omega arith;
        unacked = λ j read. cc;
      })

-- From a new group at the start of its stream, under any interleaving of publications, reads by any
-- consumers, acknowledgements, claims and repeated creations: the reads have returned exactly the
-- first messages of the stream, in the order of publication and each once, up to the group's index;
-- and each of them is still pending unless its id was acknowledged.
pub run_delivers :
    (s g : Text) (q : MemoryStreamQueue) (ops : List Op)
    → is_empty s ≡ false
    → is_empty g ≡ false
    → get g (stream_of s q).groups ≡ none
    → let t = run s g ops (begun s g q) in
      let st = stream_of s t.queue in
      let gr = group_of g st in
      (t.delivered ≡ take gr.next_idx st.messages)
      × (gr.next_idx ≤ length st.messages)
      × ((j : Text) → among j t.delivered ≡ true → (held j gr.pending || listed j t.acked) ≡ true)
unfolding stream_of group_of
run_delivers s g q ops s_full g_full fresh =
    let h =
      run-IsSound s g s_full g_full 0 ops (begun s g q) (begun-IsSound s g s_full g_full q fresh) in
    rw (h.at_stream, h.at_group) (h.in_order, h.cursor, h.unacked)
