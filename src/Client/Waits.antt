-- ===== src/Client/Waits.antt =====
-- The waits of the clients for a server to run come to an end.
use pandion.Prelude.{◌*◌, arith}
use pandion.Prelude.Integer.{ℤ}
use pandion.Provider.{Context, Net}
use pandion.Select.{Ordered}
use pandion.Client.Loops.Ends.{>>=-IsForward, IsForward, IsOver, wait_until-ends}
use pandion.Client.Request.{second}
use pandion.Client.Hetzner.{Api}
use pandion.Client.Hetzner.Create.{wait_running, check_running}

module _ {F C : Type 0} (ctx : Context) where
  -- Hetzner's wait for a machine to run, two minutes at most, ends within its rounds, whatever the
  -- cloud answers and whenever the context is cancelled, where no answer turns the clock back.
  pub hetzner_wait-ends :
      (o : Ordered F) (api : Api F C) (id : ℤ) (n : Net C)
      → IsForward (api.get_by_id ctx id)
      → IsOver (wait_running o api ctx id n)
  unfolding wait_running check_running
  hetzner_wait-ends o api id n f =
      wait_until-ends ctx (120 * second) (3 * second) _ (check_running o api ctx id) n
        (>>=-IsForward (api.get_by_id ctx id) _ f (λ found m. ground arith)) (omega arith)
