-- ===== src/Controller/Effect.antt =====
-- Steps of the reconciler: each reads and changes the world, and goes on, ends the reconciliation
-- with its result (the early returns of the source), or panics. The calls that the reconciler makes
-- to the API server are logged, in their order.
pub mod Only
pub mod Ends
pub mod Raises
pub mod Sends
use codeflare_operator.Base.{ℕ, String, Bool, true, false, Option, none, some, List, [], ◌∷◌, ◌++◌}
use codeflare_operator.Base.Run.{Run, returns, panics}
use codeflare_operator.Kube.{RayCluster, Object}
use codeflare_operator.Controller.Api.{Api, Error, Result, ok, err}

pub data Call : Type 0 where
  get_ray_cluster : (namespace name : String) → Call
  update_ray_cluster : RayCluster → Call
  delete_cluster_role_binding : (name policy : String) → Call
  get_secret : (namespace name : String) → Call
  apply : (field_manager : String) (force : Bool) → Object → Call
  get_service_account : (namespace name : String) → Call
  list_pods : (namespace label_selector : String) → Call
  delete_pod : (namespace name : String) → Call
  get_dsci : (name : String) → Call

-- `ctrl.Result` with its error: when to come back, in nanoseconds.
pub record Outcome (F : Type 0) : Type 0 where
  pub requeue_after : ℕ
  pub error : Option (Error F)

-- `ctrl.Result{}, nil`
abbrev pub finished : {F : Type 0} → Outcome F
finished = record { requeue_after = 0; error = none }

pub data Step (F : Type 0) (A : Type 0) : Type 0 where
  next : A → Step F A
  done : Outcome F → Step F A
  panicked : Step F A

-- The server's state, the calls so far, and those of them that did not fail, the latest last.
pub record World (State : Type 0) : Type 0 where
  pub server : State
  pub log : List Call
  pub accepted : List Call

abbrev pub M : (F S : Type 0) → Type 0 → Type 0
M F S A = World S → Step F A × World S

-- The reconciler's steps over one API.
abbrev pub Act : Api → Type 0 → Type 0
Act api = M api.Failure api.State

module _ {F S A B : Type 0} where
  abbrev pub continue : Step F A → (A → M F S B) → M F S B
  continue (next a) f w = f a w
  continue (done o) f w = (done o, w)
  continue panicked f w = (panicked, w)

  infixl 5 ◌>>=◌ ◌>>◌
  unfoldable pub ◌>>=◌ : M F S A → (A → M F S B) → M F S B
  ◌>>=◌ m f w = let (r, w') = m w in continue r f w'

  abbrev pub ◌>>◌ : M F S A → M F S B → M F S B
  m >> n = m >>= λ _. n

-- The accepted calls after an answer.
abbrev pub noted : {F A : Type 0} → Result F A → Call → List Call → List Call
noted (ok a) c calls = calls ++ (c ∷ [])
noted (err e) c calls = calls

module _ {F S A : Type 0} where
  unfoldable pub pure : A → M F S A
  pure a w = (next a, w)

  -- An early return.
  unfoldable pub stop : Outcome F → M F S A
  stop o w = (done o, w)

  -- A computation that may panic.
  unfoldable pub run : Run A → M F S A
  run (returns a) w = (next a, w)
  run panics w = (panicked, w)

  -- A call to the server: it is logged, and answers.
  unfoldable pub call : Call → (S → Result F A × S) → M F S (Result F A)
  call c f w =
      let (r, s) = f w.server in
      (next r, record { server = s; log = w.log ++ (c ∷ []); accepted = noted r c w.accepted })

  -- An action that is no call to the server.
  unfoldable pub outside : (S → A × S) → M F S A
  outside f w = let (a, s) = f w.server in (next a, record w { server = s })
