-- ===== src/Connector/Tests.antt =====
-- Net/Connector.cpp: the theorems on a few attempts.
use ioloop.Prelude.{◌≡◌, refl, [], ◌∷◌, ◌++◌, none, ok, true}
use ioloop.Connector.{
  Connector, new_connector, connection_refused, network_unreachable, branch, on_connect, restart,
  connected,
}
use ioloop.Connector.Backoff.{attempts, delays, restart-attempts}

restart-attempts_example :
    (c₁ : Connector) × (c' : Connector) × (restart new_connector ≡ ok c₁)
    × (attempts (network_unreachable ∷ []) (on_connect connection_refused none c₁) ≡ ok c')
    × (c'.scheduled ≡ [] ++ delays 0 (connection_refused ∷ network_unreachable ∷ []))
    × (c'.handed ≡ 0)
unfolding branch
restart-attempts_example =
    restart-attempts connection_refused (network_unreachable ∷ []) new_connector (refl, (refl, tt))

abbrev trying : Connector
trying = record new_connector { wants_connect = true; in_progress = true; socket_open = true }

abbrev left : Connector
left = record new_connector { state = connected }
