-- ===== src/Database/Users.antt =====
-- The users of the MySQL pool (src/DB/MySQLPool.cpp): a connection that one of them is done with goes
-- back by the deleter of its shared pointer.
use echo_net.Base.{
  Bool, List, Option, [], get_elem?, if◌then◌else◌, none, some, suc, zero, ℕ, ◌&&◌, ◌++◌, ◌+◌, ◌∷◌,
}
use echo_net.Database.MysqlPool.{MysqlPool, Opening, get_connection, release_connection}

-- A user asks for a connection, or is done with the one that stands at an index among those lent.
pub data Event : Type 0 where
  gets : Bool → Opening → Event
  returns : ℕ → Event

-- `lost` counts the connections that were taken from the queue, did not answer, and were not
-- replaced.
pub record Users : Type 0 where
  pub pool : MysqlPool
  pub lent : List ℕ
  pub lost : ℕ

unfoldable pub remove_at : ℕ → List ℕ → List ℕ
remove_at i [] = []
remove_at zero (x ∷ xs) = xs
remove_at (suc i) (x ∷ xs) = x ∷ remove_at i xs

-- Whether a request loses a connection.
unfoldable pub loss : Bool → Opening → List ℕ → ℕ
loss alive again [] = 0
loss alive again (c ∷ cs) = if alive then 0 else if again.init && again.connect then 0 else 1

unfoldable pub hand_out : Option ℕ × MysqlPool → ℕ → Users → Users
hand_out (none, p) n u = record u { pool = p; lost = u.lost + n }
hand_out (some c, p) n u = record { pool = p; lent = u.lent ++ c ∷ []; lost = u.lost + n }

unfoldable pub give_back : Option ℕ → ℕ → Users → Users
give_back none i u = u
give_back (some c) i u = record u { pool = release_connection c u.pool; lent = remove_at i u.lent }

unfoldable pub step : Users → Event → Users
unfolding loss hand_out give_back remove_at
step u (gets alive again) =
    hand_out (get_connection alive again u.pool) (loss alive again u.pool.pool) u
step u (returns i) = give_back (get_elem? u.lent i) i u

unfoldable pub run : Users → List Event → Users
unfolding step
run u [] = u
run u (e ∷ es) = run (step u e) es
