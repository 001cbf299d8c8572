-- ===== src/Api/Hubs.antt =====
-- internal/api/ws_handler.go and logs_ws_handler.go: the hubs that hand events and log rows on. Each
-- method holds the mutex where it touches the maps, so it is one step; Broadcast, which lets go of it
-- while it writes to the connections, is taken for one step too.
use state_graph.Prelude.{
  ℕ, suc, Bool, true, false, ltb, leb, ◌&&◌, not, List, [], ◌∷◌, ◌++◌, map, length, if◌then◌else◌,
}
use state_graph.Store.Memory.{select}
use state_graph.Telemetry.{LogRow, LogFilter}
use state_graph.Telemetry.Filter.{matches_log_filter}

-- The buffer of `make(chan …, 64)`.
abbrev pub buffer : ℕ
buffer = 64

-- select { case ch <- a: default: }
unfoldable pub offer : {A : Type 0} → A → List A → List A
offer a queue = if ltb (length queue) buffer then queue ++ (a ∷ []) else queue

-- A subscriber with what its channel holds, the oldest first; `id` is its address.
pub record LogSubscriber : Type 0 where
  pub id : ℕ
  pub filter : LogFilter
  pub ch : List LogRow

abbrev pub same : ℕ → ℕ → Bool
same a b = leb a b && leb b a

abbrev pub deliver : LogRow → LogSubscriber → LogSubscriber
deliver row sub = record sub {
  ch = if matches_log_filter row sub.filter then offer row sub.ch else sub.ch;
}

-- The subscribers of a LogHub, and the address that the next one gets.
pub record LogHub : Type 0 where
  pub subscribers : List LogSubscriber
  pub fresh : ℕ

abbrev pub new_log_hub : LogHub
new_log_hub = record { subscribers = []; fresh = 0 }

unfoldable pub subscribe : LogFilter → LogHub → LogHub
subscribe f h = record {
  subscribers = record { id = h.fresh; filter = f; ch = [] } ∷ h.subscribers;
  fresh = suc h.fresh;
}

unfoldable pub unsubscribe : ℕ → LogHub → LogHub
unsubscribe id h = record h { subscribers = select (λ sub. not (same sub.id id)) h.subscribers }

unfoldable pub publish : LogRow → LogHub → LogHub
publish row h = record h { subscribers = map (deliver row) h.subscribers }

-- `<-sub.ch` in the loop of the connection
abbrev pub take_first : {A : Type 0} → List A → List A
take_first [] = []
take_first (a ∷ rest) = rest

abbrev pub take_from : ℕ → LogSubscriber → LogSubscriber
take_from id sub = record sub { ch = if same sub.id id then take_first sub.ch else sub.ch }

unfoldable pub receive : ℕ → LogHub → LogHub
receive id h = record h { subscribers = map (take_from id) h.subscribers }

-- The hub of events, for events of any type: the connections by their addresses, and the channels.
pub record WsHub (E : Type 0) : Type 0 where
  pub clients : List ℕ
  pub subs : List (ℕ × List E)

abbrev holds : ℕ → List ℕ → Bool
holds c [] = false
holds c (d ∷ ds) = let rest = holds c ds in if same c d then true else rest

abbrev without : ℕ → List ℕ → List ℕ
without c cs = select (λ d. not (same c d)) cs

module _ {E : Type 0} where
  unfoldable pub register_client : ℕ → WsHub E → WsHub E
  register_client c h = record h {
    clients = if holds c h.clients then h.clients else c ∷ h.clients;
  }

  unfoldable pub unregister : ℕ → WsHub E → WsHub E
  unregister c h = record h { clients = without c h.clients }

  -- a new channel, by its address
  unfoldable pub ws_subscribe : ℕ → WsHub E → WsHub E
  ws_subscribe ch h = record h { subs = (ch, []) ∷ h.subs }

  unfoldable pub ws_unsubscribe : ℕ → WsHub E → WsHub E
  ws_unsubscribe ch h = record h { subs = select (λ s. not (same s.0 ch)) h.subs }

  -- `writes` says which connections take the message before the deadline; the others are dropped.
  unfoldable pub broadcast : (ℕ → Bool) → E → WsHub E → WsHub E
  unfolding offer
  broadcast writes event h = record {
    clients = select writes h.clients;
    subs = map (λ s. (s.0, offer event s.1)) h.subs;
  }
