-- ===== src/Api/Stream.antt =====
-- internal/api/stream.go: a client that keeps up is sent each attempt, in order.
use web_hook_project.Prelude.{
  ℕ, suc, ◌-◌, ◌<◌, true, false, List, [], ◌∷◌, ◌++◌, map, append_assoc, append-nil, some, Text,
  nat_eq, length, length-append, length-drop, drop, get, put, get-put_self, get-put_ne, get-del_ne,
  ◌≡◌, ◌≢◌, refl, sym, ap, subst, ◌∙◌, arith,
}
use web_hook_project.Prelude.Errors.{Result, ok}
use web_hook_project.Domain.{DeliveryAttempt}
use web_hook_project.Api.Broker.{
  Broker, Connection, Frame, ping, data_of, ticks, receives, offered, offer_all, broadcast, connect,
  register_client, unregister_client, serve_turn,
}

-- What happens: a broadcast, a tick or an attempt that is taken up and written, and other connections
-- that come and go.
pub data Happening : Type 0 where
  broadcasts : DeliveryAttempt → Happening
  pings takes : Happening
  others_come others_go : ℕ → Happening

module _ (marshal : DeliveryAttempt → Result Text) where
  unfoldable pub happen : Happening → Connection × Broker → Connection × Broker
  happen (broadcasts a) (c, b) = (c, broadcast (some a) b)
  happen pings (c, b) = serve_turn marshal (ticks true) c b
  happen takes (c, b) = serve_turn marshal (receives true) c b
  happen (others_come ch) (c, b) = (c, register_client ch b)
  happen (others_go ch) (c, b) = (c, unregister_client ch b)

  unfoldable pub all_happen : List Happening → Connection × Broker → Connection × Broker
  all_happen [] p = p
  all_happen (h ∷ hs) p = all_happen hs (happen h p)

-- The attempts that are broadcast.
abbrev pub broadcasts_of : List Happening → List DeliveryAttempt
broadcasts_of [] = []
broadcasts_of (broadcasts a ∷ hs) = a ∷ broadcasts_of hs
broadcasts_of (pings ∷ hs) = broadcasts_of hs
broadcasts_of (takes ∷ hs) = broadcasts_of hs
broadcasts_of (others_come ch ∷ hs) = broadcasts_of hs
broadcasts_of (others_go ch ∷ hs) = broadcasts_of hs

-- No broadcast comes with 64 attempts behind, and the others have other channels.
abbrev pub KeepsUp : ℕ → ℕ → List Happening → Type 0
KeepsUp ch backlog [] = Unit {0}
KeepsUp ch backlog (broadcasts a ∷ hs) = (backlog < 64) × KeepsUp ch (suc backlog) hs
KeepsUp ch backlog (pings ∷ hs) = KeepsUp ch backlog hs
KeepsUp ch backlog (takes ∷ hs) = KeepsUp ch (backlog - 1) hs
KeepsUp ch backlog (others_come other ∷ hs) = (ch ≢ other) × KeepsUp ch backlog hs
KeepsUp ch backlog (others_go other ∷ hs) = (ch ≢ other) × KeepsUp ch backlog hs

-- The texts of the data frames.
unfoldable pub texts : List Frame → List Text
texts [] = []
texts (ping ∷ fs) = texts fs
texts (data_of t ∷ fs) = t ∷ texts fs

texts-append : (fs gs : List Frame) → texts (fs ++ gs) ≡ texts fs ++ texts gs
unfolding texts
texts-append [] gs = refl
texts-append (ping ∷ fs) gs = texts-append fs gs
texts-append (data_of t ∷ fs) gs = ap (◌∷◌ t) (texts-append fs gs)

get-offer_all :
    (ch : ℕ) (a : DeliveryAttempt) (m : List (ℕ × List DeliveryAttempt))
    (buffer : List DeliveryAttempt)
    → get ch m ≡ some buffer
    → get ch (offer_all a m) ≡ some (offered a buffer)
unfolding get offer_all
get-offer_all ch a [] buffer h = ground arith
get-offer_all ch a ((j, x) ∷ m) buffer h = ground (arith, get-offer_all ch a m buffer)

map-append {ℓ κ} :
    {A : Type ℓ} {B : Type κ} (f : A → B) (xs ys : List A) → map f (xs ++ ys) ≡ map f xs ++ map f ys
map-append f [] ys = refl
map-append f (x ∷ xs) ys = ap (◌∷◌ (f x)) (map-append f xs ys)

module _ (marshal : DeliveryAttempt → Result Text) (encode : DeliveryAttempt → Text)
    (encodes : (a : DeliveryAttempt) → marshal a ≡ ok (encode a)) (ch : ℕ) where
  -- The connection is open, and has written or has at hand the given attempts.
  pub record Holds (sent buffer : List DeliveryAttempt) (p : Connection × Broker) : Type 0 where
    pub open_still : p.0.returned ≡ false
    pub own : p.0.channel ≡ ch
    pub at_hand : get ch p.1.clients ≡ some buffer
    pub told : texts p.0.written ++ map encode buffer ≡ map encode sent

  broadcast-Holds :
      (a : DeliveryAttempt) (sent buffer : List DeliveryAttempt) (c : Connection) (b : Broker)
      → Holds sent buffer (c, b)
      → length buffer < 64
      → Holds (sent ++ (a ∷ [])) (buffer ++ (a ∷ [])) (happen marshal (broadcasts a) (c, b))
  unfolding happen broadcast
  broadcast-Holds a sent buffer c b h room = record {
    open_still = h.open_still;
    own = h.own;
    at_hand = get-offer_all ch a b.clients buffer h.at_hand ∙ (ground arith);
    told =
        ap (λ l. texts c.written ++ l) (map-append encode buffer (a ∷ []))
        ∙ sym (append_assoc (texts c.written) (map encode buffer) (encode a ∷ []))
        ∙ ap (λ l. l ++ (encode a ∷ [])) h.told
        ∙ sym (map-append encode sent (a ∷ []));
  }

  pings-Holds :
      (sent buffer : List DeliveryAttempt) (c : Connection) (b : Broker)
      → Holds sent buffer (c, b)
      → Holds sent buffer (happen marshal pings (c, b))
  unfolding happen serve_turn texts
  pings-Holds sent buffer c b h =
      let run : serve_turn marshal (ticks true) c b
          ≡ (record c { written = c.written ++ (ping ∷ []) }, b) =
        ground (arith, h.open_still) in
      subst (Holds sent buffer) (sym run) (record {
        open_still = h.open_still;
        own = h.own;
        at_hand = h.at_hand;
        told =
            ap (λ l. l ++ map encode buffer)
              (texts-append c.written (ping ∷ []) ∙ append-nil (texts c.written))
            ∙ h.told;
      })

  takes-Holds :
      (sent buffer : List DeliveryAttempt) (c : Connection) (b : Broker)
      → Holds sent buffer (c, b)
      → Holds sent (drop 1 buffer) (happen marshal takes (c, b))
  unfolding happen serve_turn texts
  takes-Holds sent [] c b h =
      let found : get c.channel b.clients ≡ some [] = cc (h.own, h.at_hand) in
      let run : serve_turn marshal (receives true) c b ≡ (c, b) = ground (arith, h.open_still) in
      subst (Holds sent []) (sym run) h
  takes-Holds sent (a ∷ buffer) c b h =
      let found : get c.channel b.clients ≡ some (a ∷ buffer) = cc (h.own, h.at_hand) in
      let c' : Connection = record c { written = c.written ++ (data_of (encode a) ∷ []) } in
      let b' : Broker = record b { clients = put c.channel buffer b.clients } in
      let run : serve_turn marshal (receives true) c b ≡ (c', b') =
        ground (arith, h.open_still, encodes a) in
      subst (Holds sent buffer) (sym run) (record {
        open_still = h.open_still;
        own = h.own;
        at_hand =
            subst (λ k. get ch (put k buffer b.clients) ≡ some buffer) (sym h.own)
              (get-put_self ch buffer b.clients);
        told =
            ap (λ l. l ++ map encode buffer) (texts-append c.written (data_of (encode a) ∷ []))
            ∙ append_assoc (texts c.written) (encode a ∷ []) (map encode buffer)
            ∙ h.told;
      })

  others_come-Holds :
      (other : ℕ) (sent buffer : List DeliveryAttempt) (c : Connection) (b : Broker)
      → Holds sent buffer (c, b)
      → ch ≢ other
      → Holds sent buffer (happen marshal (others_come other) (c, b))
  unfolding happen register_client
  others_come-Holds other sent buffer c b h apart = record {
    open_still = h.open_still;
    own = h.own;
    at_hand = get-put_ne other ch [] b.clients apart ∙ h.at_hand;
    told = h.told;
  }

  others_go-Holds :
      (other : ℕ) (sent buffer : List DeliveryAttempt) (c : Connection) (b : Broker)
      → Holds sent buffer (c, b)
      → ch ≢ other
      → Holds sent buffer (happen marshal (others_go other) (c, b))
  unfolding happen unregister_client
  others_go-Holds other sent buffer c b h apart = record {
    open_still = h.open_still;
    own = h.own;
    at_hand = get-del_ne other ch b.clients apart ∙ h.at_hand;
    told = h.told;
  }

  -- From a connection that holds what was sent, one that keeps up holds what is broadcast, too.
  all_happen-Holds :
      (hs : List Happening) (sent buffer : List DeliveryAttempt) (p : Connection × Broker)
      → Holds sent buffer p
      → KeepsUp ch (length buffer) hs
      → (rest : List DeliveryAttempt) × Holds
          (sent ++ broadcasts_of hs)
          rest
          (all_happen marshal hs p)
  unfolding all_happen
  all_happen-Holds [] sent buffer p h keeps =
      (buffer, subst (λ l. Holds l buffer p) (sym (append-nil sent)) h)
  all_happen-Holds (broadcasts a ∷ hs) sent buffer (c, b) h (room, keeps) =
      let (rest, held) =
        all_happen-Holds hs (sent ++ (a ∷ [])) (buffer ++ (a ∷ []))
          (happen marshal (broadcasts a) (c, b)) (broadcast-Holds a sent buffer c b h room)
          (subst (λ n. KeepsUp ch n hs) (omega (arith, length-append buffer (a ∷ []))) keeps) in
      (
        rest,
        subst (λ l. Holds l rest (all_happen marshal hs (happen marshal (broadcasts a) (c, b))))
            (append_assoc sent (a ∷ []) (broadcasts_of hs)) held,
      )
  all_happen-Holds (pings ∷ hs) sent buffer (c, b) h keeps =
      all_happen-Holds hs sent buffer _ (pings-Holds sent buffer c b h) keeps
  all_happen-Holds (takes ∷ hs) sent buffer (c, b) h keeps =
      all_happen-Holds hs sent (drop 1 buffer) _ (takes-Holds sent buffer c b h)
        (subst (λ n. KeepsUp ch n hs) (sym (length-drop 1 buffer)) keeps)
  all_happen-Holds (others_come other ∷ hs) sent buffer (c, b) h (apart, keeps) =
      all_happen-Holds hs sent buffer _ (others_come-Holds other sent buffer c b h apart) keeps
  all_happen-Holds (others_go other ∷ hs) sent buffer (c, b) h (apart, keeps) =
      all_happen-Holds hs sent buffer _ (others_go-Holds other sent buffer c b h apart) keeps

  -- A new client that always has fewer than 64 attempts behind, and whose writes succeed, is sent each
  -- attempt that is broadcast, in order, but for those still in its buffer.
  pub stream_sends_all :
      (b : Broker) (hs : List Happening)
      → KeepsUp ch 0 hs
      → let p = all_happen marshal hs (connect ch b) in
        (buffer : List DeliveryAttempt) × (get ch p.1.clients ≡ some buffer)
        × (texts p.0.written ++ map encode buffer ≡ map encode (broadcasts_of hs))
  unfolding register_client texts
  stream_sends_all b hs keeps =
      let new : Holds [] [] (connect ch b) = record {
        open_still = refl;
        own = refl;
        at_hand = get-put_self ch [] b.clients;
        told = refl;
      } in
      let (rest, held) = all_happen-Holds hs [] [] (connect ch b) new keeps in
      (rest, held.at_hand, held.told)
