-- ===== src/Tests/Storage.antt =====
-- The database pools at concrete inputs: two connections, one of which is lost.
use echo_net.Base.{◌+◌, ◌≡◌, List, [], ◌∷◌, true, false, length}
use echo_net.Base.Counts.{count}
use echo_net.Database.MysqlPool.{Opening, new_mysql_pool}
use echo_net.Database.Users.{Event, gets, returns, run}
use echo_net.Database.Accounts.{is_opened, new_users, connections_conserved}

abbrev up : Opening
up = record { init = true; connect = true }

abbrev down : Opening
down = record { init = true; connect = false }

abbrev day : List Event
day = gets true up ∷ gets false down ∷ returns 0 ∷ gets false up ∷ gets true up ∷ []

connections_conserved_example :
    let p = new_mysql_pool (up ∷ down ∷ up ∷ []) in
    let u = run (new_users p) day in
    (count 2 u.pool.pool + count 2 u.lent + count 2 u.pool.closed ≡ is_opened 2 u.pool.opened)
    × (length u.pool.pool + length u.lent + u.lost ≡ length p.pool)
connections_conserved_example = connections_conserved (up ∷ down ∷ up ∷ []) day 2
