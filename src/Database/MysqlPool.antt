-- ===== src/Database/MysqlPool.antt =====
-- src/DB/MySQLPool.cpp
use echo_net.Base.{Bool, List, Option, [], if◌then◌else◌, none, some, suc, ℕ, ◌++◌, ◌∷◌}

-- `opened` is the number of connections opened so far; `closed` lists those that were closed.
pub record MysqlPool : Type 0 where
  pub pool : List ℕ
  pub opened : ℕ
  pub closed : List ℕ

-- What opening a connection answers: `mysql_init`, and `mysql_real_connect`.
pub record Opening : Type 0 where
  pub init : Bool
  pub connect : Bool

-- `mysql_init` gives a handle; where the connect fails, it is closed.
unfoldable pub open_connection : Opening → MysqlPool → Option ℕ × MysqlPool
open_connection o p =
    if o.init
    then if o.connect
      then (some p.opened, record p { opened = suc p.opened })
      else (none, record p { opened = suc p.opened; closed = p.closed ++ p.opened ∷ [] })
    else (none, p)

unfoldable pub push_opened : Option ℕ × MysqlPool → MysqlPool
push_opened (none, p) = p
push_opened (some c, p) = record p { pool = p.pool ++ c ∷ [] }

-- The loop of the constructor, with an answer for each round.
unfoldable pub open_all : List Opening → MysqlPool → MysqlPool
unfolding open_connection push_opened
open_all [] p = p
open_all (o ∷ os) p = open_all os (push_opened (open_connection o p))

-- `MySQLPool::MySQLPool`
unfoldable pub new_mysql_pool : List Opening → MysqlPool
unfolding open_all
new_mysql_pool os = open_all os (record { pool = []; opened = 0; closed = [] })

-- A connection that does not answer is closed, and replaced by a new one.
unfoldable pub check_connection : Bool → Opening → ℕ → MysqlPool → Option ℕ × MysqlPool
unfolding open_connection
check_connection alive again c p =
    if alive then (some c, p) else open_connection again (record p { closed = p.closed ++ c ∷ [] })

-- The first of the queue, where there is one when the wait ends.
unfoldable pub take_front : Bool → Opening → List ℕ → MysqlPool → Option ℕ × MysqlPool
unfolding check_connection
take_front alive again [] p = (none, p)
take_front alive again (c ∷ cs) p = check_connection alive again c (record p { pool = cs })

-- `getConnection`: whether the ping is answered, and what opening a connection again answers.
unfoldable pub get_connection : Bool → Opening → MysqlPool → Option ℕ × MysqlPool
unfolding take_front
get_connection alive again p = take_front alive again p.pool p

-- `releaseConnection`
unfoldable pub release_connection : ℕ → MysqlPool → MysqlPool
release_connection c p = record p { pool = p.pool ++ c ∷ [] }

-- `MySQLPool::~MySQLPool`
unfoldable pub close_pool : MysqlPool → MysqlPool
close_pool p = record p { closed = p.closed ++ p.pool; pool = [] }
