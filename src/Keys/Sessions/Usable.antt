-- ===== src/Keys/Sessions/Usable.antt =====
-- gossiper/diffiehellman.go: which sessions a peer can use, before and after a clean-up.
use peerster.Base.{
  Bool, Bool-cases, Bytes, Bytes-discrete, List, List-cases, Map, Option, Option-cases, [], ap,
  arith, false, if◌then◌else◌, inl, inr, length, load, ltb, none, refl, some, suc, true, zero, ℕ,
  ◌&&◌, ◌+◌, ◌∙◌, ◌∷◌, ◌≡◌,
}
use peerster.Keys.Sessions.{
  DiffieHellmanSession, active_key, clean_map, clean_sessions, decrypt_loop, decrypt_with, expired,
  last_session, seconds, touch_last, valid_loop,
}

last-cons :
    (s last : DiffieHellmanSession) (sessions : List DiffieHellmanSession)
    → last_session sessions ≡ some last
    → last_session (s ∷ sessions) ≡ some last
unfolding last_session
last-cons s last [] e = absurd (ground (arith, e))
last-cons s last (t ∷ sessions) e = e

module _ (now : ℕ) where
  -- What the loop finds: nothing if the last session has expired.
  valid_loop-last :
      (s : DiffieHellmanSession) (sessions : List DiffieHellmanSession) (b : Bool)
      (valid : Option DiffieHellmanSession) (last : DiffieHellmanSession)
      → last_session (s ∷ sessions) ≡ some last
      → ((valid_loop now (s ∷ sessions) b valid).0 ≡ expired now last)
        × (expired now last ≡ false → (valid_loop now (s ∷ sessions) b valid).1 ≡ some last)
  unfolding valid_loop last_session
  valid_loop-last s [] b valid last e =
      let same : s ≡ last = cc in
      (
        ap (λ (x : DiffieHellmanSession). expired now x) same,
        λ l. ground (arith, l, ap (λ (x : DiffieHellmanSession). expired now x) same, same),
      )
  valid_loop-last s (t ∷ sessions) b valid last e =
      valid_loop-last t sessions (expired now s) (if expired now s then valid else some s) last e

  -- A session that has not expired stays the last one.
  clean_sessions-last :
      (sessions : List DiffieHellmanSession) (last : DiffieHellmanSession)
      → last_session sessions ≡ some last
      → expired now last ≡ false
      → last_session (clean_sessions now sessions) ≡ some last
  unfolding clean_sessions last_session
  clean_sessions-last [] last e l = absurd (ground (arith, e))
  clean_sessions-last (s ∷ []) last e l =
      let same : s ≡ last = cc in
      let kept : expired now s ≡ false =
        ap (λ (x : DiffieHellmanSession). expired now x) same ∙ l in
      rw (kept) e
  clean_sessions-last (s ∷ t ∷ sessions) last e l =
      let rest = clean_sessions-last (t ∷ sessions) last e l in
      elim (Bool-cases (expired now s && ltb (s.last_time_used + seconds 30) now)) [
        | inl d ↦ rw (clean_sessions, d) rest
        | inr d ↦ rw (clean_sessions, d) (last-cons s last (clean_sessions now (t ∷ sessions)) rest)
      ]

  load-clean :
      (id : Bytes) (m : Map Bytes (List DiffieHellmanSession))
      → load Bytes-discrete id (clean_map now m) ≡ elim (load Bytes-discrete id m) [
        | none ↦ none
        | some sessions ↦ some (clean_sessions now sessions)
      ]
  unfolding load clean_map
  load-clean id [] = refl
  load-clean id ((j, sessions) ∷ m) = ground (arith, load-clean id m)

  -- A key is at hand exactly if the last session has not expired, and it is the key of that session.
  active_key-last :
      (id : Bytes) (m : Map Bytes (List DiffieHellmanSession))
      (sessions : List DiffieHellmanSession) (last : DiffieHellmanSession)
      → load Bytes-discrete id m ≡ some sessions
      → last_session sessions ≡ some last
      → active_key now id m ≡ (if expired now last then none else some last.key)
  unfolding active_key last_session
  active_key-last id m [] last e l = absurd (ground (arith, l))
  active_key-last id m (s ∷ sessions) last e l =
      let (all_, valid) = valid_loop-last s sessions true none last l in
      ground (arith, e, all_, valid)

  last-exists :
      (s : DiffieHellmanSession) (sessions : List DiffieHellmanSession)
      → (last : DiffieHellmanSession) × (last_session (s ∷ sessions) ≡ some last)
  unfolding last_session
  last-exists s [] = (s, refl)
  last-exists s (t ∷ sessions) = last-exists t sessions

  -- A clean-up at a time takes no key away that `getKey` answers with at that time, and puts no other
  -- in its place.
  pub active_key-clean :
      (id : Bytes) (m : Map Bytes (List DiffieHellmanSession)) (k : Bytes)
      → active_key now id m ≡ some k
      → active_key now id (clean_map now m) ≡ some k
  unfolding active_key valid_loop
  active_key-clean id m k e = elim (Option-cases (load Bytes-discrete id m)) [
    | inl q ↦ absurd (ground (arith, rw (active_key, q) at e))
    | inr (sessions, q) ↦ elim (List-cases sessions) [
      | inl n ↦ absurd (ground (arith, rw (active_key, q, n, valid_loop) at e))
      | inr (s, rest, n) ↦
          let at_id : load Bytes-discrete id m ≡ some (s ∷ rest) = q ∙ ap (λ x. some x) n in
          let (last, l) = last-exists s rest in
          let before = active_key-last id m (s ∷ rest) last at_id l in
          let fresh : expired now last ≡ false = ground (arith, before, e) in
          let after =
            active_key-last id (clean_map now m) (clean_sessions now (s ∷ rest)) last
              (load-clean id m ∙ rw (at_id) refl) (clean_sessions-last (s ∷ rest) last l fresh) in
          ground (arith, before, after, e, fresh)
    ]
  ]

module _ (decrypt : Bytes → Bytes → Option Bytes) (now : ℕ) where
  decrypt_loop-last :
      (n : ℕ) (sessions : List DiffieHellmanSession) (last : DiffieHellmanSession)
      (cipher_text : Bytes)
      → last_session sessions ≡ some last
      → decrypt_loop decrypt now (suc n) sessions cipher_text
        ≡ elim (decrypt last.key cipher_text) [
          | none ↦ none
          | some text ↦ some (text, touch_last now sessions)
        ]
  unfolding decrypt_loop
  decrypt_loop-last zero sessions last cipher_text l = ground (arith, l)
  decrypt_loop-last (suc n) sessions last cipher_text l =
      ground (arith, l, decrypt_loop-last n sessions last cipher_text l)

  -- Of all sessions with a peer only the last one is tried on a message: where that does not open it,
  -- the message is not opened, whatever keys the other sessions have, and where it does, only that
  -- session is marked as used.
  pub decrypt_with-last :
      (sessions : List DiffieHellmanSession) (last : DiffieHellmanSession) (cipher_text : Bytes)
      → last_session sessions ≡ some last
      → decrypt_with decrypt now sessions cipher_text ≡ elim (decrypt last.key cipher_text) [
        | none ↦ none
        | some text ↦ some (text, touch_last now sessions)
      ]
  unfolding decrypt_with last_session
  decrypt_with-last [] last cipher_text l = absurd (ground (arith, l))
  decrypt_with-last (s ∷ sessions) last cipher_text l =
      decrypt_loop-last (length sessions) (s ∷ sessions) last cipher_text l
