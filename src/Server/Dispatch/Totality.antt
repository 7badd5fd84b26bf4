-- ===== src/Server/Dispatch/Totality.antt =====
-- A status is sent without an exception.
use dora_foxglove.Prelude.{ℕ, ◌≡◌, refl, ok, Bool-cases, inl, inr}
use dora_foxglove.Server.Types.{Server, Env, StatusLevel, Notice}
use dora_foxglove.Server.Effects.{send}
use dora_foxglove.Server.Status.{send_status_and_log_msg}

pub status_returns :
    (env : Env) (hdl : ℕ) (level : StatusLevel) (notice : Notice) (s : Server)
    → (send_status_and_log_msg env hdl level notice s).0 ≡ ok tt
unfolding send_status_and_log_msg send
status_returns env hdl level notice s = elim (Bool-cases (env.reachable hdl s.log)) [
  | inl e ↦ rw e refl
  | inr e ↦ rw e refl
]
