-- ===== src/Safety/Connection.antt =====
-- The connection that `reconcile` opens.
use k8sgrowthbook_controller.Prelude.{[], ◌≡◌, sym, Option, none, some, GoString}
use k8sgrowthbook_controller.Api.Meta.{SecretReference}
use k8sgrowthbook_controller.Api.Instance.{GrowthbookInstance}
use k8sgrowthbook_controller.Effects.{Error, Result, ok, err, Prog, Call, Reply}
use k8sgrowthbook_controller.Effects.{MongoClient, mongo_connect, mongo_disconnect, ◌>>=◌}
use k8sgrowthbook_controller.Effects.{from_result, failing_as, deferring}
use k8sgrowthbook_controller.Effects.Monitors.{Monitor, Obeys}
use k8sgrowthbook_controller.Storage.{disconnect}
use k8sgrowthbook_controller.Controller.Externals.{Externals, Stop}
use k8sgrowthbook_controller.Controller.Resources.{stopping}
use k8sgrowthbook_controller.Controller.Provider.{mongo_db_provider}
use k8sgrowthbook_controller.Controller.Reconciler.{
  reconcile, reconcile_connected, root_credentials,
}
use k8sgrowthbook_controller.Effects.Traces.{Always, Ensures}
use mathlib.Core.Path.{subst}

abbrev opened : Option MongoClient → Result Error MongoClient → Option MongoClient
opened s (ok c) = some c
opened s (err e) = s

-- The client that is connected.
abbrev note_connection : Option MongoClient → (c : Call) → Reply c → Option MongoClient
note_connection s (mongo_connect _ _) r = opened s r
note_connection s (mongo_disconnect _) r = none
note_connection s _ r = s

-- One connection at a time, and only the client that is connected is disconnected.
abbrev AllowedConnection : Option MongoClient → Call → Type 0
AllowedConnection s (mongo_connect _ _) = s ≡ none
AllowedConnection s (mongo_disconnect c) = s ≡ some c
AllowedConnection s _ = Unit

abbrev pub connections : Monitor (Option MongoClient)
connections = record { step = note_connection; allowed = AllowedConnection }

abbrev pub Closed : Option MongoClient → Type 0
Closed s = s ≡ none

-- Nothing is disconnected.
abbrev pub StaysConnected : Call → Type 0
StaysConnected (mongo_disconnect _) = ⊥
StaysConnected _ = Unit

module _ (x : Externals) (i : GrowthbookInstance) where
  -- From the credentials on.
  abbrev after_credentials : GoString × GoString → Prog Stop GrowthbookInstance
  after_credentials credentials =
      stopping i (mongo_db_provider x i credentials.0 credentials.1) >>= λ connected.
      deferring (disconnect connected.0) (reconcile_connected x connected.1 i)

  provider_leaks :
      (e : Error) (credentials : GoString × GoString)
      → x.parse_url_path i.spec.mongo_db.uri ≡ err e
      → ¬ Obeys connections Closed none (after_credentials credentials)
  unfolding mongo_db_provider ◌>>=◌ failing_as from_result
  provider_leaks e credentials h obeys = cc (rw h at (obeys.1 (ok (record { handle = 0 }))))

  provider-StaysConnected :
      (e : Error) (credentials : GoString × GoString)
      → x.parse_url_path i.spec.mongo_db.uri ≡ err e
      → Ensures StaysConnected (λ j. ⊥) Always (after_credentials credentials)
  unfolding mongo_db_provider ◌>>=◌ failing_as from_result
  provider-StaysConnected e credentials h = record {
    at = (tt, elim [ err e ↦ tt | ok c ↦ rw h tt ]);
  }

  -- If the path cannot be parsed, and the instance names no secret, `reconcile` never returns without
  -- an error and never disconnects, and there are replies after which it has not kept to one
  -- connection that is closed at its end: the connection that was just opened stays open.
  pub reconcile_leaks :
      (e : Error)
      → x.parse_url_path i.spec.mongo_db.uri ≡ err e
      → i.spec.mongo_db.secret ≡ none
      → (¬ Obeys connections Closed none (reconcile x (mongo_db_provider x) i))
        × Ensures StaysConnected (λ j. ⊥) Always (reconcile x (mongo_db_provider x) i)
  unfolding reconcile ◌>>=◌ failing_as
  reconcile_leaks e h no_secret = (
    λ obeys.
        provider_leaks e ([], []) h
          (subst
            (λ (s : Option SecretReference).
              Obeys connections Closed none
                (stopping i (root_credentials i s) >>= after_credentials))
            no_secret obeys),
    subst
        (λ (s : Option SecretReference).
          Ensures StaysConnected (λ j. ⊥) Always
            (stopping i (root_credentials i s) >>= after_credentials))
        (sym no_secret) (provider-StaysConnected e ([], []) h),
  )
