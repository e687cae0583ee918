-- ===== src/Fakes/Redis.antt =====
-- A Redis server in memory: a state says what each key holds.
use email_service_with_aws_s.Base.{
  ◌+◌, ◌*◌, not, ◌&&◌, none, ℕ, suc, String, refl, Option, some, List, [], ◌∷◌, ◌++◌, ◌==◌, select,
  if◌then◌else◌,
}
use email_service_with_aws_s.Redis.Counters.{
  Counters, Entry, is_stored, is_due, outside, place, without_member, to_count,
}
use email_service_with_aws_s.Redis.Lists.{Lists, last_of, init_of}

pub record Stored : Type 0 where
  pub sets : String → List Entry
  pub counts : String → Option ℕ
  pub deadlines : String → Option ℕ
  pub time : ℕ

abbrev pub memory_counters : Counters
memory_counters = record {
  State = Stored;
  members = λ s. s.sets;
  counter = λ s. s.counts;
  clock = λ s. s.time;
  deadline = λ s. s.deadlines;
  at = λ t s. record {
    sets = λ j. if is_due t (s.deadlines j) then [] else s.sets j;
    counts = λ j. if is_due t (s.deadlines j) then none else s.counts j;
    deadlines = λ j. if is_due t (s.deadlines j) then none else s.deadlines j;
    time = t;
  };
  zremrangebyscore = λ k low high s. record s {
    sets = λ j. if k == j then select (outside low high) (s.sets j) else s.sets j;
    deadlines = λ j.
        if k == j
          && not
              (is_stored (if k == j then select (outside low high) (s.sets j) else s.sets j) none)
        then none
        else s.deadlines j;
  };
  zadd = λ k score m s. record s {
    sets = λ j. if k == j then place (score, m) (without_member m (s.sets j)) else s.sets j;
  };
  incr = λ k s. (
    suc (to_count (s.counts k)),
    record s { counts = λ j. if k == j then some (suc (to_count (s.counts j))) else s.counts j },
  );
  expire = λ k ttl s. record s {
    deadlines = λ j.
        if k == j && is_stored (s.sets j) (s.counts j)
        then some (s.time + ttl * 1000)
        else s.deadlines j;
  };
  members-zremrangebyscore = λ k low high s j. refl;
  counter-zremrangebyscore = λ k low high s j. refl;
  members-zadd = λ k score m s j. refl;
  counter-zadd = λ k score m s j. refl;
  incr_value = λ k s. refl;
  members-incr = λ k s j. refl;
  counter-incr = λ k s j. refl;
  members-expire = λ k ttl s j. refl;
  counter-expire = λ k ttl s j. refl;
  clock-at = λ t s. refl;
  members-at = λ t s j. refl;
  counter-at = λ t s j. refl;
  deadline-at = λ t s j. refl;
  clock-zremrangebyscore = λ k low high s. refl;
  deadline-zremrangebyscore = λ k low high s j. refl;
  clock-zadd = λ k score m s. refl;
  deadline-zadd = λ k score m s j. refl;
  clock-incr = λ k s. refl;
  deadline-incr = λ k s j. refl;
  clock-expire = λ k ttl s. refl;
  deadline-expire = λ k ttl s j. refl;
}

abbrev pub memory_lists : (Text : Type 0) → Lists Text
memory_lists Text = record {
  State = String → List Text;
  items = λ s. s;
  lpush = λ k x s j. if k == j then x ∷ s j else s j;
  rpush = λ k x s j. if k == j then s j ++ x ∷ [] else s j;
  brpop = λ k s. (last_of (s k), λ j. if k == j then init_of (s j) else s j);
  items-lpush = λ k x s j. refl;
  items-rpush = λ k x s j. refl;
  brpop_value = λ k s. refl;
  items-brpop = λ k s j. refl;
}
