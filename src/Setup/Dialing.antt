-- ===== src/Setup/Dialing.antt =====
-- src/endpoint.cpp: `Dial`, which is `Create` and then `Connect`.
use know_your_memory.Common.{refl, List, inl, inr, ℕ, Bool}
use know_your_memory.Error.{Piece}
use know_your_memory.Setup.Calls.{Rdma, Options, Chars}
use know_your_memory.Setup.Effects.{
  ⊤, Outcome, World, Post, returned, failed, aborted, Post-continue, Post-map,
}
use know_your_memory.Setup.Create.{wrapped, dial}
use know_your_memory.Setup.Walk.{nothing, Phase, Walk, IsLegal}
use know_your_memory.Setup.Walk.Connection.{Connected, connect_endpoint-Walk}
use know_your_memory.Setup.Addresses.{owed}
use know_your_memory.Setup.Addresses.Balance.{MayLeak, create-Keeps}

-- A run whose status gets a message in front ends as it did.
Post-wrapped :
    {Q : ⊤ → World → Type 0} {R : World → Type 0} (m : List Piece) {r : Outcome ⊤ × World}
    → Post Q R r
    → Post Q R (wrapped r m)
Post-wrapped m (returned a w p) = returned a w p
Post-wrapped m (failed s w p) = failed _ w p
Post-wrapped m (aborted w p) = aborted w p

-- What holds of the history where nothing is held any more.
MayLeak-IsLegal :
    (os : Rdma) (p : Phase) (held : List ℕ) (w : World) → MayLeak os p held w → IsLegal os w
MayLeak-IsLegal os p held w (inl (k, o)) = (p, k)
MayLeak-IsLegal os p held w (inr (h, (k, o))) = (p, k)

-- Where no queue pair has been made yet, a run of Dial makes only calls that its queue pair allows,
-- whatever fails; when it returns an endpoint, this is connected as Connect leaves it.
pub dial-Walk :
    (os : Rdma) (manual : Bool) (ip : Chars) (port : ℕ) (opts : Options) (w : World)
    → Walk os w.calls nothing
    → Post (λ _ w'. Connected os opts w') (IsLegal os) (dial os manual ip port opts w)
unfolding dial
dial-Walk os manual ip port opts w k =
    Post-continue _
      (Post-wrapped _ (
        Post-map (create-Keeps os manual ip port opts nothing (owed os w.calls) w (k, refl))
          (λ _ _ l. l) (λ w' l. MayLeak-IsLegal os nothing (owed os w.calls) w' l)))
      (λ _ w1 (k1, o1). Post-wrapped _ (connect_endpoint-Walk os manual opts w1 k1))
