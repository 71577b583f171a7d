-- ===== src/Setup/Addresses/Balance.antt =====
-- src/endpoint.cpp: `Create` and `Listen` free the address infos that they look up, but after some
-- errors.
use know_your_memory.Common.{
  ℕ, true, not, ◌≡◌, refl, List, ◌==◌, Bool, false, ap, ◌∙◌, ◌⊎◌, inl, inr, Bool-cases, ==_refl,
  length, ◌∷◌, some, none, if◌then◌else◌, remove_first,
}
use know_your_memory.Common.Ints.{pos, is_zero, ℤ}
use know_your_memory.Setup.Calls.{
  free_addr_info, Call, Rdma, AddrInfo, create_ep, create_event_channel, create_id, resolve_route,
  resolve_addr, get_cm_event, ack_cm_event, Chars, Options, listen,
}
use know_your_memory.Setup.Effects.{
  World, Post, Post-continue, Post-raise_if, Post-assert, Post-map, returned, aborted, assert,
  perform, perform_, obtain,
}
use know_your_memory.Setup.Create.{
  create_managed, create_manual, resolve_path, is_addr_resolved, is_route_resolved, create,
  create_with, listen_on,
}
use know_your_memory.Setup.Walk.{Phase}
use know_your_memory.Setup.Walk.States.{passed}
use know_your_memory.Setup.Addresses.{
  Keeps, is_plain, plain-Keeps, and_held, free-Keeps, get_rdma_addr-Found,
}

module _ (os : Rdma) (p : Phase) (held : List ℕ) where
  perform-Keeps :
      (c : Call) (w : World)
      → is_plain c ≡ true
      → Keeps os p held w
      → Post (λ _. Keeps os p held) (Keeps os p held) (perform os c w)
  unfolding perform
  perform-Keeps c w e k = returned _ _ (plain-Keeps os c (os.ret w.calls c) p held w e k)

  perform_-Keeps :
      (c : Call) (w : World)
      → is_plain c ≡ true
      → Keeps os p held w
      → Post (λ _. Keeps os p held) (Keeps os p held) (perform_ os c w)
  unfolding perform_ perform
  perform_-Keeps c w e k = returned _ _ (plain-Keeps os c (os.ret w.calls c) p held w e k)

  obtain-Keeps :
      (c : Call) (w : World)
      → is_plain c ≡ true
      → Keeps os p held w
      → Post (λ _. Keeps os p held) (Keeps os p held) (obtain os c w)
  unfolding obtain
  obtain-Keeps c w e k = returned _ _ (plain-Keeps os c (pos (os.pointer w.calls c)) p held w e k)

  create_managed-Keeps :
      (pd : ℕ) (rai : AddrInfo) (w : World)
      → Keeps os p held w
      → Post (λ _. Keeps os p held) (Keeps os p held) (create_managed os pd rai w)
  unfolding create_managed
  create_managed-Keeps pd rai w k =
      Post-continue _ (perform-Keeps (create_ep rai.handle pd) w refl k)
        (λ r w1 k1. Post-raise_if _ (not (is_zero r)) _ _ k1 (λ _. returned _ _ k1))

  resolve_path-Keeps :
      (channel : ℕ) (w : World)
      → Keeps os p held w
      → Post (λ _. Keeps os p held) (Keeps os p held) (resolve_path os channel w)
  unfolding resolve_path
  resolve_path-Keeps channel w k =
      Post-continue _ (perform-Keeps resolve_route w refl k) (λ r3 w1 k1.
        Post-raise_if _ (not (is_zero r3)) _ _ k1 (λ _.
          Post-continue _ (perform_-Keeps get_cm_event w1 refl k1) (λ _ w2 k2.
            Post-raise_if _ (not (is_route_resolved (os.event w2.calls))) _ _ k2 (λ _.
              Post-assert _ (os.event_is_own w2.calls) _ k2 (λ _.
                Post-continue _ (perform_-Keeps ack_cm_event w2 refl k2)
                  (λ _ w3 k3. returned _ _ k3))))))

  create_manual-Keeps :
      (rai : AddrInfo) (w : World)
      → Keeps os p held w
      → Post (λ _. Keeps os p held) (Keeps os p held) (create_manual os rai w)
  unfolding create_manual
  create_manual-Keeps rai w k =
      Post-continue _ (obtain-Keeps create_event_channel w refl k) (λ ch w1 k1.
        Post-raise_if _ (ch == 0) _ _ k1 (λ _.
          Post-continue _ (perform-Keeps create_id w1 refl k1) (λ r1 w2 k2.
            Post-raise_if _ (not (is_zero r1)) _ _ k2 (λ _.
              Post-continue _ (perform-Keeps (resolve_addr rai.ai_dst_addr) _ refl k2) (λ r2 w3 k3.
                Post-raise_if _ (not (is_zero r2)) _ _ k3 (λ _.
                  Post-continue _ (perform_-Keeps get_cm_event w3 refl k3) (λ _ w4 k4.
                    Post-raise_if _ (not (is_addr_resolved (os.event w4.calls))) _ _ k4 (λ _.
                      Post-continue _ (perform_-Keeps ack_cm_event w4 refl k4) (λ _ w5 k5.
                        Post-map (resolve_path-Keeps ch w5 k5) (λ _ _ l. l) (λ _ l. l))))))))))

module _ (os : Rdma) where
  -- At most one more address info is held than before.
  abbrev pub MayLeak : Phase → List ℕ → World → Type 0
  MayLeak p held w = Keeps os p held w ⊎ ((h : ℕ) × Keeps os p (h ∷ held) w)

  create_with-Keeps :
      (manual : Bool) (pd : ℕ) (rai : AddrInfo) (p : Phase) (held : List ℕ) (w : World)
      → Keeps os p held w
      → Post (λ _. Keeps os p held) (Keeps os p held) (create_with os manual pd rai w)
  unfolding create_with
  create_with-Keeps true pd rai p held w k = create_manual-Keeps os p held rai w k
  create_with-Keeps false pd rai p held w k = create_managed-Keeps os p held pd rai w k

  -- A look-up that did not leave the function is held.
  held_now :
      (r : ℤ) (h : ℕ) (p : Phase) (held : List ℕ) (w : World)
      → not (is_zero r) ≡ false
      → Keeps os p (and_held os r h held) w
      → Keeps os p (h ∷ held) w
  held_now r h p held w e (k, o) = (k, o ∙ ap (λ z. if z then h ∷ held else held) (passed _ e))

  held_never :
      (r : ℤ) (h : ℕ) (p : Phase) (held : List ℕ) (w : World)
      → Keeps os p (and_held os r h held) w
      → MayLeak p held w
  held_never r h p held w (k, o) = elim (Bool-cases (is_zero r)) [
    | inl t ↦ inr (h, (k, o ∙ ap (λ z. if z then h ∷ held else held) t))
    | inr f ↦ inl (k, o ∙ ap (λ z. if z then h ∷ held else held) f)
  ]

  freed :
      (h : ℕ) (p : Phase) (held : List ℕ) (w : World)
      → Keeps os p (h ∷ held) w
      → Post (λ _. Keeps os p held) (MayLeak p held) (perform_ os (free_addr_info h) w)
  unfolding perform_ perform
  freed h p held w k =
      let (k1, o1) = free-Keeps os h (os.ret w.calls (free_addr_info h)) p (h ∷ held) w k in
      returned _ _ (k1, o1 ∙ ap (λ z. if z then held else h ∷ remove_first h held) (==_refl h))

  -- When Create returns an endpoint, it has freed every address info that it looked up, also that
  -- of the source; when it does not, at most one is held, and the queue pair is left alone.
  pub create-Keeps :
      (manual : Bool) (ip : Chars) (port : ℕ) (opts : Options) (p : Phase) (held : List ℕ)
      (w : World)
      → Keeps os p held w
      → Post (λ _. Keeps os p held) (MayLeak p held) (create os manual ip port opts w)
  unfolding create
  create-Keeps manual ip port opts p held w k = Post-raise_if _ (length ip == 0) _ _ (inl k) (λ _.
      Post-continue _
        (Post-map
          (get_rdma_addr-Found os opts.src (some ip) (some port)
            (record { passive = false; source = none }) p held w k)
          (λ _ _ l. l) (λ _ l. absurd l))
        (λ (ret, rai) w1 k1.
          Post-raise_if _ (not (is_zero ret)) _ _ (held_never ret rai.handle p held w1 k1) (λ e.
            let k2 = held_now ret rai.handle p held w1 e k1 in
            Post-continue _
              (Post-map (create_with-Keeps manual opts.pd rai p (rai.handle ∷ held) w1 k2)
                (λ _ _ l. l) (λ _ l. inr (_, l)))
              (λ _ w2 k3. Post-assert _ (not (w2.id.pd == 0)) _ (inr (_, k3)) (λ _.
                Post-continue _ (freed rai.handle p held w2 k3) (λ _ w3 k4. returned _ _ k4))))))

  -- When Listen returns a listener, or fails to listen, it has freed every address info that it
  -- looked up; when it fails otherwise, at most one is held.
  pub listen_on-Keeps :
      (ip : Chars) (port : ℕ) (p : Phase) (held : List ℕ) (w : World)
      → Keeps os p held w
      → Post (λ _. Keeps os p held) (MayLeak p held) (listen_on os ip port w)
  unfolding listen_on
  listen_on-Keeps ip port p held w k =
      Post-continue _
        (Post-map
          (get_rdma_addr-Found os (some ip) none (some port)
            (record { passive = true; source = none }) p held w k)
          (λ _ _ l. l) (λ _ l. absurd l))
        (λ (ret, rai) w1 k1.
          Post-raise_if _ (not (is_zero ret)) _ _ (held_never ret rai.handle p held w1 k1) (λ e.
            let k2 = held_now ret rai.handle p held w1 e k1 in
            Post-continue _
              (Post-map (perform-Keeps os p (rai.handle ∷ held) (create_ep rai.handle 0) w1 refl k2)
                (λ _ _ l. l) (λ _ l. inr (_, l)))
              (λ r2 w2 k3. Post-raise_if _ (not (is_zero r2)) _ _ (inr (_, k3)) (λ _.
                Post-continue _ (freed rai.handle p held _ k3) (λ _ w3 k4.
                  Post-continue _
                    (Post-map (perform-Keeps os p held (listen 20) w3 refl k4) (λ _ _ l. l)
                      (λ _ l. inl l))
                    (λ r3 w4 k5.
                      Post-raise_if _ (not (is_zero r3)) _ _ (inl k5)
                        (λ _. last (not (w4.id.pd == 0)) w4 k5)))))))
    where
      last :
          (b : Bool) (w' : World)
          → Keeps os p held w'
          → Post (λ _. Keeps os p held) (MayLeak p held) (assert b w')
      last true w' l = returned _ _ l
      last false w' l = aborted _ (inl l)
