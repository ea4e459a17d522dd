-- ===== src/Redis/Reference.antt =====
-- The store of `Memory` meets the laws of the interface.
use api_gateway_with_abuse_d.Prelude.{refl, none}
use api_gateway_with_abuse_d.Redis.{
  Redis, live, set_cell, incr_cell, expire_cell, sadd_cell, zadd_cell, filter_cell, outside,
  cut_cell, remove_ranks,
}
use api_gateway_with_abuse_d.Redis.Memory.{Store, write, matching, contains-matching, lookup}

abbrev pub memory : Redis
memory = record {
  Db = Store;
  cell = λ k db. lookup k db;
  scan = matching;
  set = λ t k v ex db. write k (set_cell t v ex) db;
  delete = λ k db. write k none db;
  incr = λ t k db. write k (incr_cell (live t (lookup k db))) db;
  expire = λ t k secs db. write k (expire_cell t secs (live t (lookup k db))) db;
  sadd = λ t k m db. write k (sadd_cell m (live t (lookup k db))) db;
  zadd = λ t k score m db. write k (zadd_cell score m (live t (lookup k db))) db;
  zremrangebyscore =
      λ t k lo hi db. write k (filter_cell (outside lo hi) (live t (lookup k db))) db;
  zremrangebyrank =
      λ t k start stop db. write k (cut_cell (remove_ranks start stop) (live t (lookup k db))) db;
  contains-scan = contains-matching;
  cell-set = λ t k v ex db j. refl;
  cell-delete = λ k db j. refl;
  cell-incr = λ t k db j. refl;
  cell-expire = λ t k secs db j. refl;
  cell-sadd = λ t k m db j. refl;
  cell-zadd = λ t k score m db j. refl;
  cell-zremrangebyscore = λ t k lo hi db j. refl;
  cell-zremrangebyrank = λ t k start stop db j. refl;
}
