-- ===== src/Setup/Effects.antt =====
-- The state of a run of the code of src/endpoint.cpp: the calls that it has made, and the connection
-- that it sets up.
pub use know_your_memory.Effects.{
  ⊤, Outcome, returns, fails, aborts, Run, pure, raise, gets, continue, ◌>>=◌, ◌>>◌, raise_if,
  assert, modify, when, Post, returned, failed, aborted, Post-continue, Post-raise_if,
  Post-raise_last, Post-assert, Post-map,
}
use know_your_memory.Common.{ℕ, Option, List, [], ◌∷◌, ◌+◌}
use know_your_memory.Common.Ints.{ℤ, pos, negsuc}
use know_your_memory.Error.{Status, Piece, text, number, failure, internal}
use know_your_memory.Endpoint.Completions.{RecvState}
use know_your_memory.Setup.Calls.{Call, Event, Rdma, CmId}

-- The fields of `Endpoint` beside its id. `qp` is `qp_`, `none` as long as nothing is stored there.
pub record Endpoint : Type 0 where
  pub private_data : Option (List ℕ)
  pub private_data_len : ℕ
  pub qp : Option ℕ
  pub recv : RecvState

-- The calls so far, the last one first, the id of the connection and its endpoint.
pub record World : Type 0 where
  pub calls : List Event
  pub id : CmId
  pub ep : Endpoint

abbrev pub M : Type 0 → Type 0
M A = Run World A

-- `std::to_string` of an `int`.
abbrev pub printed : ℤ → List Piece
printed (pos n) = number n ∷ []
printed (negsuc n) = text "-" ∷ number (n + 1) ∷ []

abbrev pub internal_error : List Piece → Status
internal_error m = failure internal m

module _ (os : Rdma) where
  -- A call that returns an `int`.
  unfoldable pub perform : Call → M ℤ
  perform c w =
      let r = os.ret w.calls c in
      (returns r, record w { calls = record { call = c; answer = r } ∷ w.calls })

  -- A call that returns a pointer.
  unfoldable pub obtain : Call → M ℕ
  obtain c w =
      let p = os.pointer w.calls c in
      (returns p, record w { calls = record { call = c; answer = pos p } ∷ w.calls })

  -- A call whose result is not looked at.
  unfoldable pub perform_ : Call → M ⊤
  unfolding perform
  perform_ c = do perform c; pure tt

  abbrev pub errno : M ℕ
  errno w = (returns (os.errno w.calls), w)
