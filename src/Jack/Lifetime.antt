-- ===== src/Jack/Lifetime.antt =====
-- cmd/jack/main.go from its start to its end: the deferred calls of Close run in the reverse order. log.Fatalf ends
-- the process without them.
pub mod Closings
pub mod Closed
use jack_service.Common.{true, false, List, Option, none, some, Result, ok, err, if◌then◌else◌}
use jack_service.Common.Text.{◌==◌}
use jack_service.Go.{Error}
use jack_service.World.{
  World, M, ◌>>=◌, ◌>>◌, pure, emit, close_connection, to_statsd, serving_status_set,
  http_shut_down, grpc_stopped,
}
use jack_service.Scheduler.{Scheduler}
use jack_service.Config.{Config}
use jack_service.Jack.{Platform, Process, start}

module _ (platform : Platform) (cfg : Config) where
  -- The health status, and the listener.
  unfoldable pub listen : M (Option Error)
  unfolding emit
  listen = do emit (serving_status_set true); pure platform.listen

  -- httpServer.Shutdown, whose error is dropped
  unfoldable pub shut_down : M (Option Error)
  unfolding emit
  shut_down w =
      let error = platform.shut_down_http w.history in (error, (emit (http_shut_down error) w).1)

  -- statsd.NoOpClient has no connection.
  unfoldable pub close_statsd : M (Option Error)
  unfolding close_connection
  close_statsd =
      if cfg.datadog_statsd_addr == ""
      then pure none
      else close_connection to_statsd platform.close_statsd

  unfoldable pub close_scheduler : Option Scheduler → M (Option Error)
  close_scheduler none = pure none
  close_scheduler (some scheduler) = scheduler.close

  -- The deferred calls, the last one first; their errors are dropped.
  unfoldable pub close_all : Process → M (Option Error)
  unfolding close_scheduler close_statsd
  close_all p = do
    close_scheduler p.runtime.scheduler
    p.callback_backend.close
    p.admin_store.close
    close_statsd

  -- What follows a signal.
  unfoldable pub stop : Process → M (Option Error)
  unfolding emit shut_down close_all
  stop p = do emit (serving_status_set false); shut_down; emit grpc_stopped; close_all p

  unfoldable pub serve_until_signal :
      (Process → M (Unit {0})) → Process → M (Result Error (Unit {0}))
  unfolding listen stop
  serve_until_signal serving p = do
    failed ← listen
    elim failed [ some e ↦ pure (err e) | none ↦ (do serving p; stop p; pure (ok tt)) ]

  -- main, where `serving` is what the process does until a signal comes.
  unfoldable pub main : (Process → M (Unit {0})) → M (Result Error (Unit {0}))
  unfolding start serve_until_signal
  main serving = do
    started ← start platform cfg
    elim started [ err e ↦ pure (err e) | ok p ↦ serve_until_signal serving p ]
