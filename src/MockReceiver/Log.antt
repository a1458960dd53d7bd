-- ===== src/MockReceiver/Log.antt =====
-- The log of captured requests against a plain list of all that was added.
use web_hook_project.Prelude.{
  ℕ, zero, suc, ◌-◌, ◌≤◌, ◌<◌, true, false, List, [], ◌∷◌, ◌++◌, ◌≡◌, inl, inr, sym, ap, ◌∙◌, arith,
  leb, length, drop, length-append, append_assoc, append-nil, Bool-cases,
}
use web_hook_project.Prelude.Int.{ℤ, pos, negsuc}
use web_hook_project.MockReceiver.{CapturedRequest, RingBuffer, new_ring_buffer, add, get_all}

unfoldable pub add_all : List CapturedRequest → RingBuffer → RingBuffer
add_all [] b = b
add_all (r ∷ rs) b = add_all rs (add r b)

-- The last `cap` items.
abbrev pub newest : ℕ → List CapturedRequest → List CapturedRequest
newest cap xs = drop (length xs - cap) xs

newest-few : (cap : ℕ) (xs : List CapturedRequest) → length xs ≤ cap → newest cap xs ≡ xs
newest-few cap xs few = let none_over : length xs - cap ≡ 0 = omega arith in rw none_over

module _ (cap : ℕ) (some_room : 0 < cap) where
  abbrev holding : List CapturedRequest → RingBuffer
  holding es = record { capacity = cap; entries = es }

  add_room :
      (r : CapturedRequest) (es : List CapturedRequest)
      → leb cap (length es) ≡ false
      → add r (holding es) ≡ holding (es ++ (r ∷ []))
  unfolding add
  add_room r es room = ground arith

  add_full :
      (r : CapturedRequest) (es : List CapturedRequest)
      → leb cap (length es) ≡ true
      → add r (holding es) ≡ holding (drop 1 es ++ (r ∷ []))
  unfolding add
  add_full r es full = ground arith

  add_all-newest :
      (rs es : List CapturedRequest)
      → length es ≤ cap
      → (add_all rs (holding es)).entries ≡ newest cap (es ++ rs)
  unfolding add_all
  add_all-newest [] es few = rw (append-nil es) (sym (newest-few cap es few))
  add_all-newest (r ∷ rs) [] few =
      let room : leb cap 0 ≡ false = ground (arith, some_room) in
      ap (λ b. (add_all rs b).entries) (add_room r [] room)
      ∙ add_all-newest rs (r ∷ []) (omega (arith, some_room))
  add_all-newest (r ∷ rs) (e ∷ es) few = elim (Bool-cases (leb cap (suc (length es)))) [
    | inr room ↦
        ap (λ b. (add_all rs b).entries) (add_room r (e ∷ es) room)
        ∙ add_all-newest rs ((e ∷ es) ++ (r ∷ [])) (ground (arith, length-append (e ∷ es) (r ∷ [])))
        ∙ ap (newest cap) (append_assoc (e ∷ es) (r ∷ []) rs)
    | inl full ↦
        let over : length ((e ∷ es) ++ (r ∷ rs)) - cap ≡ suc (length rs) =
          ground (arith, length-append es (r ∷ rs)) in
        let over' : length (es ++ (r ∷ rs)) - cap ≡ length rs =
          ground (arith, length-append es (r ∷ rs)) in
        ap (λ b. (add_all rs b).entries) (add_full r (e ∷ es) full)
        ∙ add_all-newest rs (es ++ (r ∷ [])) (ground (arith, length-append es (r ∷ [])))
        ∙ ap (newest cap) (append_assoc es (r ∷ []) rs)
        ∙ ap (λ n. drop n (es ++ (r ∷ rs))) over'
        ∙ sym (ap (λ n. drop n ((e ∷ es) ++ (r ∷ rs))) over)
  ]

-- A new log that was given requests holds the last of them, in the order in which they came: as many
-- as its capacity, which is 50 for one that is not positive, and all of them while there are fewer.
pub ring_buffer_lem :
    (capacity : ℤ) (rs : List CapturedRequest)
    → get_all (add_all rs (new_ring_buffer capacity))
      ≡ newest (new_ring_buffer capacity).capacity rs
unfolding get_all new_ring_buffer
ring_buffer_lem (pos zero) rs = add_all-newest 50 (omega arith) rs [] (omega arith)
ring_buffer_lem (pos (suc n)) rs = add_all-newest (suc n) (omega arith) rs [] (omega arith)
ring_buffer_lem (negsuc n) rs = add_all-newest 50 (omega arith) rs [] (omega arith)
