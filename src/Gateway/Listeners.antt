-- ===== src/Gateway/Listeners.antt =====
-- internal/grpc/server.go: the TLS option of the runner's server, and the two listeners.
use Prim.Native.String.{◌++◌ as ◌<>◌}
use state_graph.Prelude.{String, ◌==◌, not, ◌&&◌, Option, none, some, List, [], ◌∷◌, if◌then◌else◌}
use state_graph.Values.{Error, wrapped}
use state_graph.Exec.{Result, ok, err, Exec, pure, raise, of_result, act, branch, wrap, ◌>>=◌, ◌>>◌}
use state_graph.Config.{Config}

-- What ends the select, or comes before: ctx.Done(), or the return of a Serve with its error, if
-- it has one. `server_closed` is http.ErrServerClosed.
pub data ServerSignal : Type 0 where
  context_done : ServerSignal
  runner_returned : Option Error → ServerSignal
  server_closed : ServerSignal
  public_returned : Option Error → ServerSignal

-- The network and the servers of the packages that are used: what they deliver once both serve, and
-- their shutdown, the second of which may fail. `load_pair` is tls.LoadX509KeyPair.
pub record Network (K W : Type 0) : Type 0 where
  pub load_pair : String → String → Exec W K
  pub listen : String → Exec W (Unit {0})
  pub serve_both : String → Option K → Exec W (List ServerSignal)
  pub graceful_stop : W → W
  pub shutdown : Exec W (Unit {0})

abbrev pub unless_nil : Option Error → String → Result (Unit {0}) → Result (Unit {0})
unless_nil none what rest = rest
unless_nil (some e) what rest = err (wrapped what "" e)

-- The select over the errors of the servers and the end of the context. With no signal it waits.
unfoldable pub await : List ServerSignal → Result (Unit {0})
await [] = Result.running
await (context_done ∷ signals) = ok tt
await (runner_returned e ∷ signals) = unless_nil e "runner server" (await signals)
await (server_closed ∷ signals) = await signals
await (public_returned e ∷ signals) = unless_nil e "public server" (await signals)

module _ {K W : Type 0} (n : Network K W) where
  unfoldable pub new_grpc_server : Config → Exec W (Option K)
  new_grpc_server cfg =
      if not (cfg.grpc_tls_cert == "") && not (cfg.grpc_tls_key == "")
      then wrap "grpc: load runner TLS credentials" ""
          (branch (n.load_pair cfg.grpc_tls_cert cfg.grpc_tls_key) (λ k. pure (some k)) raise)
      else pure none

  unfoldable pub serve_listeners : Config → Option K → Exec W (Unit {0})
  unfolding await
  serve_listeners cfg creds = do
    wrap "grpc: listen runner" (":" <> cfg.runner_grpc_port)
        (n.listen (":" <> cfg.runner_grpc_port))
    signals ← n.serve_both (":" <> cfg.grpc_port) creds
    of_result (await signals)
    act n.graceful_stop
    branch n.shutdown pure (λ _. pure tt)
