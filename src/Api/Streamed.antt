-- ===== src/Api/Streamed.antt =====
-- What the clients of the streams get.
use mathlib.Core.List.{reverse, append_assoc, append-nil}
use state_graph.Prelude.{
  ◌↔◌, eq_iff, true, arith, String, ℕ, ◌≡◌, refl, sym, ap, ◌∙◌, Option, some, List, [], ◌∷◌, ◌++◌,
  map, Bool-cases, inl, inr,
}
use state_graph.Exec.{ok, Exec, pure, act, inspect, branch}
use state_graph.Store.{Time, Store}
use state_graph.Store.Memory.{select}
use state_graph.Store.Filters.{Filters, Filters-select}
use state_graph.Telemetry.{LogRow, LogFilter, Connection, query_logs}
use state_graph.Api.Events.{
  StateTransitionPayload, state_transition, service_update, WsEvent, EventPayload, log_entry,
  logs_end,
}
use state_graph.Api.Streams.{
  Signal, gone, tick, closed, heard, Frame, keepalive, event, concerns, stream_frames, RowSignal,
  left, channel_closed, row, write_log_entry, write_rows, write_live, replay, serve_logs_ws,
}

-- the events of the frames, without the keepalives
abbrev pub events_of : List Frame → List WsEvent
events_of [] = []
events_of (keepalive ∷ frames) = events_of frames
events_of (event e ∷ frames) = e ∷ events_of frames

-- what is heard before the client goes or the channel is closed
abbrev pub audible : List Signal → List WsEvent
audible [] = []
audible (gone ∷ signals) = []
audible (closed ∷ signals) = []
audible (tick ∷ signals) = audible signals
audible (heard e ∷ signals) = e ∷ audible signals

abbrev pub IsOwn : String → WsEvent → Type 0
IsOwn exec_id e =
    (p : StateTransitionPayload) × (e.payload ≡ state_transition p) × (p.execution_id ≡ exec_id)

concerns_iff :
    (exec_id : String) (payload : EventPayload)
    → (concerns exec_id payload ≡ true)
      ↔ ((p : StateTransitionPayload) × (payload ≡ state_transition p) × (p.execution_id ≡ exec_id))
concerns_iff exec_id (state_transition p) = (
  λ h. (p, refl, (eq_iff p.execution_id exec_id).0 h),
  λ (q, same, own). ground (arith, same, own, eq_iff p.execution_id exec_id),
)
concerns_iff exec_id (service_update name status) = (λ h. cc, λ (q, same, own). cc)
concerns_iff exec_id (log_entry r) = (λ h. cc, λ (q, same, own). cc)
concerns_iff exec_id logs_end = (λ h. cc, λ (q, same, own). cc)

stream_frames-select :
    (exec_id : String) (signals : List Signal)
    → events_of (stream_frames exec_id signals)
      ≡ select (λ e. concerns exec_id e.payload) (audible signals)
unfolding stream_frames
stream_frames-select exec_id [] = refl
stream_frames-select exec_id (gone ∷ signals) = refl
stream_frames-select exec_id (closed ∷ signals) = refl
stream_frames-select exec_id (tick ∷ signals) = stream_frames-select exec_id signals
stream_frames-select exec_id (heard e ∷ signals) = elim (Bool-cases (concerns exec_id e.payload)) [
  | inl yes_own ↦ rw yes_own (ap (λ l. e ∷ l) (stream_frames-select exec_id signals))
  | inr other ↦ rw other (stream_frames-select exec_id signals)
]

-- The event stream of an execution writes, between its keepalives, the state transitions of this
-- execution, and no other event, in the order in which they are heard until the client goes or the
-- channel is closed.
pub stream_frames-IsOwn :
    (exec_id : String) (signals : List Signal)
    → Filters (IsOwn exec_id) (audible signals) (events_of (stream_frames exec_id signals))
stream_frames-IsOwn exec_id signals = rw (stream_frames-select exec_id signals) (
    Filters-select (λ e. concerns exec_id e.payload) (λ e. concerns_iff exec_id e.payload)
      (audible signals))

-- the rows that a subscriber hears before it leaves or its channel is closed
abbrev pub live_rows : List RowSignal → List LogRow
live_rows [] = []
live_rows (left ∷ signals) = []
live_rows (channel_closed ∷ signals) = []
live_rows (row r ∷ signals) = r ∷ live_rows signals

module _ {W : Type 0} (now : W → Time) (write : WsEvent → W → W) (shown : W → List EventPayload)
    (writes : (e : WsEvent) (w : W) → shown (write e w) ≡ shown w ++ e.payload ∷ []) where
  -- an action that returns, having written these payloads
  abbrev Shows : Exec W (Unit {0}) → List EventPayload → Type 0
  Shows m payloads = (w : W) → (w' : W) × (m w ≡ (ok tt, w')) × (shown w' ≡ shown w ++ payloads)

  after :
      (r : LogRow) (rest : Exec W (Unit {0})) (payloads : List EventPayload)
      → Shows rest payloads
      → Shows
          (branch (write_log_entry now write r) (λ _. rest) (λ e. state_graph.Exec.raise e))
          (log_entry r ∷ payloads)
  unfolding branch act
  after r rest payloads h w =
      let e : WsEvent = record { payload = log_entry r; timestamp = r.occurred_at } in
      let (w', ran, shows) = h (write e w) in
      (w', ran, shows ∙ ap (λ l. l ++ payloads) (writes e w) ∙ append_assoc (shown w) _ payloads)

  write_rows-Shows : (rows : List LogRow) → Shows (write_rows now write rows) (map log_entry rows)
  unfolding write_rows pure
  write_rows-Shows [] w = (w, refl, sym (append-nil (shown w)))
  write_rows-Shows (r ∷ rows) w = after r _ _ (write_rows-Shows rows) w

  write_live-Shows :
      (signals : List RowSignal)
      → Shows (write_live now write signals) (map log_entry (live_rows signals))
  unfolding write_live pure
  write_live-Shows [] w = (w, refl, sym (append-nil (shown w)))
  write_live-Shows (left ∷ signals) w = (w, refl, sym (append-nil (shown w)))
  write_live-Shows (channel_closed ∷ signals) w = (w, refl, sym (append-nil (shown w)))
  write_live-Shows (row r ∷ signals) w = after r _ _ (write_live-Shows signals) w

  -- A client of the log stream gets the stored rows that the query returns, the last of them first,
  -- then the mark of their end, and then the rows that its subscription hears until it leaves or the
  -- channel is closed, in their order, if every write arrives, and the query and the subscription
  -- write nothing to it.
  pub serve_logs_ws-Shows :
      (st : Option (Store W)) (ch : Connection W) (f : LogFilter)
      (subscribe : LogFilter → Exec W (List RowSignal)) (rows : List LogRow) (total : ℕ)
      (signals : List RowSignal) (w w1 : W)
      → query_logs ch f w ≡ (ok (rows, total), w1)
      → shown w1 ≡ shown w
      → ((v : W) → (v' : W) × (subscribe f v ≡ (ok signals, v')) × (shown v' ≡ shown v))
      → (w' : W) × (serve_logs_ws now write st (some ch) f subscribe w ≡ (ok tt, w'))
        × (shown w'
            ≡ shown w
              ++ (map log_entry (reverse rows) ++ logs_end ∷ map log_entry (live_rows signals)))
  unfolding serve_logs_ws replay branch inspect act
  serve_logs_ws-Shows st ch f subscribe rows total signals w w1 queried quiet subscribes =
      let (w2, replayed, shows2) = write_rows-Shows (reverse rows) w1 in
      let e : WsEvent = record { payload = logs_end; timestamp = now w2 } in
      let (w3, subscribed, shows3) = subscribes (write e w2) in
      let (w4, lived, shows4) = write_live-Shows signals w3 in
      (
        w4,
        rw (queried, replayed, subscribed, lived) refl,
        rw (shows4, shows3, writes e w2, shows2, quiet) (simp (append_assoc)),
      )
