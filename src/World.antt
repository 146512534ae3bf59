-- ===== src/World.antt =====
-- What a reconcile acts on: an API server behind the client library, and the record of every write,
-- of every Event and of the reads that a deletion rests on, newest first. The server is a parameter,
-- with any state of its own.
pub mod Emits
pub mod Yields
pub mod Sends
pub mod Adds
pub mod Ensures
use nvsentinel_capi_remediat.Common.{ℕ, String, Bool, List, ◌∷◌, Dict}
use nvsentinel_capi_remediat.Objects.{Machine, Cluster, Node, HealthCheck, Request, Item, Rule}

-- the classes of errors that the program tells apart
pub data ApiError : Type 0 where
  not_found conflict forbidden already_exists : ApiError
  other : String → ApiError

pub data Result {ℓ} (A : Type ℓ) : Type ℓ where
  ok : A → Result A
  err : ApiError → Result A

pub record GroupVersionKind : Type 0 where
  pub group : String
  pub version : String
  pub kind : String

-- what a RESTMapper answers: a mapping, a no-match error, or another error
pub data Mapping : Type 0 where
  mapped no_match : Mapping
  failed : ApiError → Mapping

-- what the cluster cache answers when asked for a workload cluster's client
pub data Connection : Type 0 where
  connected not_connected : Connection
  unreachable : ApiError → Connection

pub data EventType : Type 0 where
  normal warning : EventType

pub data Subject : Type 0 where
  machine_subject cluster_subject : String → String → Subject

-- `note` holds the bytes of the Event's note
pub record Event : Type 0 where
  pub subject : Subject
  pub type : EventType
  pub reason : String
  pub action : String
  pub note : List ℕ

pub data Effect : Type 0 where
  -- a patch of the Machine: under the optimistic lock or not, from what was read to what is wanted
  patched : Bool → Machine → Machine → Effect
  -- a patch of a request's status conditions, from the request that was read
  answered : Request → List Item → Effect
  recorded : Event → Effect
  -- the creation of a DeviceTaintRule
  created : Rule → Effect
  -- the deletion of a Machine, on the condition that it is as it was read
  deleted : Machine → Effect
  -- a read of a DeviceTaintRule, with what it returned
  seen : Rule → Effect

pub record World (S : Type 0) : Type 0 where
  pub server : S
  pub effects : List Effect

-- an action that returns a value and the world after it
abbrev pub M : Type 0 → Type 0 → Type 0
M S A = World S → A × World S

module _ {S : Type 0} where
  unfoldable pub pure : {A : Type 0} → A → M S A
  pure a w = (a, w)

  infixl 5 ◌>>=◌ ◌>>◌
  unfoldable pub ◌>>=◌ : {A B : Type 0} → M S A → (A → M S B) → M S B
  ◌>>=◌ m f w = f (m w).0 (m w).1

  unfoldable pub ◌>>◌ : {B : Type 0} → M S (Unit {0}) → M S B → M S B
  ◌>>◌ m k w = k (m w).1

  -- `Recorder.Eventf`
  unfoldable pub record_event : Event → M S (Unit {0})
  record_event e w = (tt, record w { effects = recorded e ∷ w.effects })

-- The clients of the management and the workload cluster, and the clock. Every call may change the
-- server's state in any way: what others do between two calls is part of it.
pub record Client (S : Type 0) : Type 0 where
  pub patch_machine : Bool → Machine → Machine → S → Result Machine × S
  pub get_machine : String → String → S → Result Machine × S
  pub get_cluster : String → String → S → Result Cluster × S
  -- by namespace and Cluster name, and by namespace
  pub list_machines : String → String → S → Result (List Machine) × S
  pub list_health_checks : String → S → Result (List HealthCheck) × S
  -- the workload cluster: its cached client, its mapper, the watch on its requests, and its
  -- uncached client
  pub connect : S → Connection × S
  pub mapper : S → (GroupVersionKind → Mapping) × S
  pub watch_requests : S → Result (Unit {0}) × S
  pub connect_uncached : S → Result (Unit {0}) × S
  pub list_nodes : S → Result (List Node) × S
  pub list_requests : S → Result (List Request) × S
  pub get_request : String → S → Result Request × S
  pub patch_request_status : Request → List Item → S → Result (Unit {0}) × S
  pub clock : S → ℕ × S

module _ {S : Type 0} where
  -- a read, which is not recorded
  unfoldable pub read : {A : Type 0} → (S → A × S) → M S A
  read call w = ((call w.server).0, record w { server = (call w.server).1 })

  -- a write, recorded when it is sent
  unfoldable pub write : {A : Type 0} → Effect → (S → A × S) → M S A
  write e call w =
      ((call w.server).0, record { server = (call w.server).1; effects = e ∷ w.effects })

  unfoldable pub patch : Client S → Bool → Machine → Machine → M S (Result Machine)
  unfolding write
  patch client lock base updated =
      write (patched lock base updated) (client.patch_machine lock base updated)
