-- ===== src/Cypher/Clauses.antt =====
-- The clauses of Cypher that src/app/api/graph/v1/cypher_read_only.py tells apart.
use work_behavior_analytics.Prelude.{true, ◌≡◌, refl}
use work_behavior_analytics.Cypher.ReadOnly.{
  TokenKind, create, merge, set, delete, detach, remove, foreach, match_kw, optional, with_kw,
  unwind, return_kw, where_kw, order, skip, limit, call, union, ident, other, is_write,
  is_read_start,
}

-- CREATE, MERGE, SET, DELETE, DETACH, REMOVE and FOREACH write.
pub data Writes : TokenKind → Type 0 where
  create_writes : Writes create
  merge_writes : Writes merge
  set_writes : Writes set
  delete_writes : Writes delete
  detach_writes : Writes detach
  remove_writes : Writes remove
  foreach_writes : Writes foreach

-- MATCH, OPTIONAL, WITH, UNWIND, RETURN, WHERE, ORDER, SKIP, LIMIT, CALL and UNION begin a reading query.
pub data BeginsReading : TokenKind → Type 0 where
  match_reads : BeginsReading match_kw
  optional_reads : BeginsReading optional
  with_reads : BeginsReading with_kw
  unwind_reads : BeginsReading unwind
  return_reads : BeginsReading return_kw
  where_reads : BeginsReading where_kw
  order_reads : BeginsReading order
  skip_reads : BeginsReading skip
  limit_reads : BeginsReading limit
  call_reads : BeginsReading call
  union_reads : BeginsReading union

pub is_write-Writes : (k : TokenKind) → is_write k ≡ true → Writes k
is_write-Writes create h = create_writes
is_write-Writes merge h = merge_writes
is_write-Writes set h = set_writes
is_write-Writes delete h = delete_writes
is_write-Writes detach h = detach_writes
is_write-Writes remove h = remove_writes
is_write-Writes foreach h = foreach_writes
is_write-Writes match_kw h = absurd cc
is_write-Writes optional h = absurd cc
is_write-Writes with_kw h = absurd cc
is_write-Writes unwind h = absurd cc
is_write-Writes return_kw h = absurd cc
is_write-Writes where_kw h = absurd cc
is_write-Writes order h = absurd cc
is_write-Writes skip h = absurd cc
is_write-Writes limit h = absurd cc
is_write-Writes call h = absurd cc
is_write-Writes union h = absurd cc
is_write-Writes ident h = absurd cc
is_write-Writes (other s) h = absurd cc

pub Writes-is_write : (k : TokenKind) → Writes k → is_write k ≡ true
Writes-is_write _ create_writes = refl
Writes-is_write _ merge_writes = refl
Writes-is_write _ set_writes = refl
Writes-is_write _ delete_writes = refl
Writes-is_write _ detach_writes = refl
Writes-is_write _ remove_writes = refl
Writes-is_write _ foreach_writes = refl

pub is_read_start-BeginsReading : (k : TokenKind) → is_read_start k ≡ true → BeginsReading k
is_read_start-BeginsReading create h = absurd cc
is_read_start-BeginsReading merge h = absurd cc
is_read_start-BeginsReading set h = absurd cc
is_read_start-BeginsReading delete h = absurd cc
is_read_start-BeginsReading detach h = absurd cc
is_read_start-BeginsReading remove h = absurd cc
is_read_start-BeginsReading foreach h = absurd cc
is_read_start-BeginsReading match_kw h = match_reads
is_read_start-BeginsReading optional h = optional_reads
is_read_start-BeginsReading with_kw h = with_reads
is_read_start-BeginsReading unwind h = unwind_reads
is_read_start-BeginsReading return_kw h = return_reads
is_read_start-BeginsReading where_kw h = where_reads
is_read_start-BeginsReading order h = order_reads
is_read_start-BeginsReading skip h = skip_reads
is_read_start-BeginsReading limit h = limit_reads
is_read_start-BeginsReading call h = call_reads
is_read_start-BeginsReading union h = union_reads
is_read_start-BeginsReading ident h = absurd cc
is_read_start-BeginsReading (other s) h = absurd cc

pub BeginsReading-is_read_start : (k : TokenKind) → BeginsReading k → is_read_start k ≡ true
BeginsReading-is_read_start _ match_reads = refl
BeginsReading-is_read_start _ optional_reads = refl
BeginsReading-is_read_start _ with_reads = refl
BeginsReading-is_read_start _ unwind_reads = refl
BeginsReading-is_read_start _ return_reads = refl
BeginsReading-is_read_start _ where_reads = refl
BeginsReading-is_read_start _ order_reads = refl
BeginsReading-is_read_start _ skip_reads = refl
BeginsReading-is_read_start _ limit_reads = refl
BeginsReading-is_read_start _ call_reads = refl
BeginsReading-is_read_start _ union_reads = refl
