-- ===== src/Database/RedisPool.antt =====
-- src/DB/RedisPool.cpp
use echo_net.Base.{ℕ, suc, List, [], ◌∷◌, ◌++◌, Bool, Option, none, some, if◌then◌else◌}

pub record RedisPool : Type 0 where
  pub pool : List ℕ
  pub opened : ℕ
  pub closed : List ℕ

-- What `redisConnect` answers: a context, and one with no error.
pub record Connecting : Type 0 where
  pub context : Bool
  pub fine : Bool

-- One round of the constructor: a context with an error is freed.
unfoldable pub connect_one : Connecting → RedisPool → RedisPool
connect_one o p =
    if o.context
    then if o.fine
      then record p { opened = suc p.opened; pool = p.pool ++ p.opened ∷ [] }
      else record p { opened = suc p.opened; closed = p.closed ++ p.opened ∷ [] }
    else p

unfoldable pub connect_all : List Connecting → RedisPool → RedisPool
unfolding connect_one
connect_all [] p = p
connect_all (o ∷ os) p = connect_all os (connect_one o p)

-- `RedisPool::RedisPool`
unfoldable pub new_redis_pool : List Connecting → RedisPool
unfolding connect_all
new_redis_pool os = connect_all os (record { pool = []; opened = 0; closed = [] })

unfoldable pub take_context : List ℕ → RedisPool → Option ℕ × RedisPool
take_context [] p = (none, p)
take_context (c ∷ cs) p = (some c, record p { pool = cs })

-- `getConnection`: no look whether the connection still works.
unfoldable pub get_context : RedisPool → Option ℕ × RedisPool
unfolding take_context
get_context p = take_context p.pool p

-- `releaseConnection`
unfoldable pub release_context : ℕ → RedisPool → RedisPool
release_context c p = record p { pool = p.pool ++ c ∷ [] }

-- `RedisPool::~RedisPool`
unfoldable pub close_contexts : RedisPool → RedisPool
close_contexts p = record p { closed = p.closed ++ p.pool; pool = [] }
