-- ===== src/MqttClient/Subscriptions.antt =====
-- The stored subscriptions, which a new connection sends again.
use mqtt_viewer.Base.{
  ℕ, suc, ◌-◌, true, false, List, [], ◌∷◌, ◌++◌, append_assoc, append-nil, map, ◌≡◌, inl, inr, refl,
  sym, ap, ◌∙◌, arith, ◌==◌, if◌then◌else◌, Bool-cases, Bytes, str_eq, str_eq_iff, codes,
}
use mqtt_viewer.ConnectionLog.{LogLevel}
use mqtt_viewer.MqttClient.{MqttConnState, Sub, Call, Lib, World, send_subscribe, store_state, say}
use mqtt_viewer.MqttClient.Callbacks.{resubscribe, on_connect}
use mqtt_viewer.MqttClient.Session.{but_last, last_of, forget_sub}

-- How often a filter is stored.
abbrev pub stored : Bytes → List Sub → ℕ
stored topic [] = 0
stored topic (s ∷ ss) = if str_eq s.topic topic then suc (stored topic ss) else stored topic ss

last-first :
    (topic : Bytes) (t : Sub) (ts : List Sub)
    → stored topic (last_of t ts ∷ but_last (t ∷ ts)) ≡ stored topic (t ∷ ts)
unfolding last_of but_last
last-first topic t [] = refl
last-first topic t (u ∷ us) = ground (arith, last-first topic u us)

forget_sub-found :
    (topic : Bytes) (s : Sub) (ss : List Sub)
    → str_eq s.topic topic ≡ true
    → (other : Bytes) → stored other (forget_sub topic (s ∷ ss)) ≡ stored other ss
unfolding forget_sub
forget_sub-found topic s [] e other = rw e refl
forget_sub-found topic s (t ∷ ts) e other = rw e (last-first other t ts)

forget_sub-next :
    (topic : Bytes) (s : Sub) (ss : List Sub)
    → str_eq s.topic topic ≡ false
    → forget_sub topic (s ∷ ss) ≡ s ∷ forget_sub topic ss
unfolding forget_sub
forget_sub-next topic s ss e = rw e refl

-- Removing a filter takes one of its entries, where there is one, and leaves each other filter's.
pub forget_sub-stored :
    (topic other : Bytes) (ss : List Sub)
    → stored other (forget_sub topic ss)
      ≡ (if str_eq topic other then stored other ss - 1 else stored other ss)
forget_sub-stored topic other [] = unfold forget_sub in ground arith
forget_sub-stored topic other (s ∷ ss) = elim (Bool-cases (str_eq s.topic topic)) [
  | inl e ↦ ground (arith, forget_sub-found topic s ss e other, (str_eq_iff s.topic topic).0 e)
  | inr e ↦ ground (
    arith,
    forget_sub-next topic s ss e,
    forget_sub-stored topic other ss,
    (str_eq_iff s.topic other).0,
    (str_eq_iff topic other).0,
    str_eq_iff s.topic topic,
  )
]

module _ (lib : Lib) where
  abbrev pub packet : ℕ → Sub → Call
  packet h s = Call.subscribe h s.topic s.qos

  send_subscribe-calls :
      (h : ℕ) (topic : Bytes) (qos : ℕ) (w : World)
      → let w' = (send_subscribe lib h topic qos w).0 in
        (w'.calls ≡ w.calls ++ (Call.subscribe h topic qos ∷ []))
        × (w'.client.subs ≡ w.client.subs)
        × (w'.client.conn_state ≡ w.client.conn_state)
        × (w'.client.mosq ≡ w.client.mosq)
  unfolding send_subscribe
  send_subscribe-calls h topic qos w =
      elim (Bool-cases (lib.rc w.calls (Call.subscribe h topic qos) == 0)) [
        | inl e ↦ simp e (refl, refl, refl, refl)
        | inr e ↦ simp e (refl, refl, refl, refl)
      ]

  resubscribe-calls :
      (h : ℕ) (ss : List Sub) (w : World)
      → let w' = resubscribe lib h ss w in
        (w'.calls ≡ w.calls ++ map (packet h) ss)
        × (w'.client.subs ≡ w.client.subs)
        × (w'.client.conn_state ≡ w.client.conn_state)
        × (w'.client.mosq ≡ w.client.mosq)
  unfolding resubscribe
  resubscribe-calls h [] w = (sym (append-nil w.calls), refl, refl, refl)
  resubscribe-calls h (s ∷ ss) w =
      let u = (send_subscribe lib h s.topic s.qos w).0 in
      let (a, b, c, d) = send_subscribe-calls h s.topic s.qos w in
      let (p, q, r, t) = resubscribe-calls h ss u in
      (
        p
            ∙ ap (λ l. l ++ map (packet h) ss) a
            ∙ append_assoc w.calls (packet h s ∷ []) (map (packet h) ss),
        q ∙ b,
        r ∙ c,
        t ∙ d,
      )

  -- After a connection is accepted, the broker is sent one SUBSCRIBE for each stored subscription, in
  -- order, and nothing else; the list stays as it is, and the client counts as connected.
  pub on_connect_resubscribes :
      (h : ℕ) (w : World)
      → let w' = on_connect lib h 0 w in
        (w'.calls ≡ w.calls ++ map (packet h) w.client.subs)
        × (w'.client.subs ≡ w.client.subs)
        × (w'.client.conn_state ≡ MqttConnState.connected)
  unfolding on_connect
  on_connect_resubscribes h w =
      let (p, q, r, t) = resubscribe-calls h w.client.subs (
        say lib LogLevel.info (codes "Connected to broker")
          (store_state MqttConnState.connected 0 w)) in
      (p, q, r)
