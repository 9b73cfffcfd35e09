-- ===== src/Complete/Words.antt =====
-- internal/ui/complete.go: the lists of words that the completion knows.
use d9s.Base.{List, [], ◌∷◌, ◌++◌, Bytes, codes}

-- tableKeywords
abbrev pub table_keywords : List Bytes
table_keywords = codes "FROM" ∷ codes "JOIN" ∷ codes "INTO" ∷ codes "UPDATE" ∷ codes "TABLE" ∷ []

-- columnKeywords
abbrev pub column_keywords : List Bytes
column_keywords =
    codes "SELECT" ∷ codes "WHERE" ∷ codes "ON" ∷ codes "HAVING" ∷ codes "SET" ∷ codes "BY" ∷ []

-- sqlKeywords
unfoldable pub sql_keywords : List Bytes
sql_keywords =
    codes "ALTER"
    ∷ codes "AND"
    ∷ codes "AS"
    ∷ codes "ASC"
    ∷ codes "BEGIN"
    ∷ codes "BETWEEN"
    ∷ codes "BY"
    ∷ codes "CASE"
    ∷ codes "CAST"
    ∷ codes "COMMIT"
    ∷ codes "CREATE"
    ∷ codes "CROSS"
    ∷ codes "DELETE"
    ∷ codes "DESC"
    ∷ codes "DISTINCT"
    ∷ codes "DROP"
    ∷ codes "ELSE"
    ∷ codes "END"
    ∷ codes "EXISTS"
    ∷ codes "EXPLAIN"
    ∷ codes "FALSE"
    ∷ codes "FROM"
    ∷ codes "FULL"
    ∷ codes "GROUP"
    ∷ codes "HAVING"
    ∷ codes "IN"
    ∷ codes "INNER"
    ∷ codes "INSERT"
    ∷ codes "INTERSECT"
    ∷ codes "INTO"
    ∷ codes "IS"
    ∷ codes "JOIN"
    ∷ codes "LEFT"
    ∷ codes "LIKE"
    ∷ codes "LIMIT"
    ∷ codes "NOT"
    ∷ codes "NULL"
    ∷ codes "OFFSET"
    ∷ codes "ON"
    ∷ codes "OR"
    ∷ codes "ORDER"
    ∷ codes "OUTER"
    ∷ codes "RIGHT"
    ∷ codes "ROLLBACK"
    ∷ codes "SELECT"
    ∷ codes "SET"
    ∷ codes "TABLE"
    ∷ codes "THEN"
    ∷ codes "TRUE"
    ∷ codes "TRUNCATE"
    ∷ codes "UNION"
    ∷ codes "UPDATE"
    ∷ codes "USING"
    ∷ codes "VALUES"
    ∷ codes "WHEN"
    ∷ codes "WHERE"
    ∷ codes "WITH"
    ∷ []

-- redisCommands
unfoldable pub redis_commands : List Bytes
redis_commands =
    codes "APPEND"
    ∷ codes "AUTH"
    ∷ codes "BITCOUNT"
    ∷ codes "COPY"
    ∷ codes "DBSIZE"
    ∷ codes "DECR"
    ∷ codes "DECRBY"
    ∷ codes "DEL"
    ∷ codes "ECHO"
    ∷ codes "EXISTS"
    ∷ codes "EXPIRE"
    ∷ codes "EXPIREAT"
    ∷ codes "FLUSHDB"
    ∷ codes "GET"
    ∷ codes "GETBIT"
    ∷ codes "GETDEL"
    ∷ codes "GETEX"
    ∷ codes "GETRANGE"
    ∷ codes "GETSET"
    ∷ codes "HDEL"
    ∷ codes "HEXISTS"
    ∷ codes "HGET"
    ∷ codes "HGETALL"
    ∷ codes "HINCRBY"
    ∷ codes "HKEYS"
    ∷ codes "HLEN"
    ∷ codes "HMGET"
    ∷ codes "HSET"
    ∷ codes "HSETNX"
    ∷ codes "HVALS"
    ∷ codes "INCR"
    ∷ codes "INCRBY"
    ∷ codes "INFO"
    ∷ codes "KEYS"
    ∷ codes "LINDEX"
    ∷ codes "LLEN"
    ∷ codes "LPOP"
    ∷ codes "LPUSH"
    ∷ codes "LRANGE"
    ∷ codes "LREM"
    ∷ codes "LSET"
    ∷ codes "LTRIM"
    ∷ codes "MEMORY"
    ∷ codes "MGET"
    ∷ codes "MSET"
    ∷ codes "OBJECT"
    ∷ codes "PERSIST"
    ∷ codes "PEXPIRE"
    ∷ codes "PING"
    ∷ codes "PTTL"
    ∷ codes "RANDOMKEY"
    ∷ codes "RENAME"
    ∷ codes "RPOP"
    ∷ codes "RPUSH"
    ∷ codes "SADD"
    ∷ codes "SCAN"
    ∷ codes "SCARD"
    ∷ codes "SDIFF"
    ∷ codes "SET"
    ∷ codes "SETEX"
    ∷ codes "SETNX"
    ∷ codes "SETRANGE"
    ∷ codes "SINTER"
    ∷ codes "SISMEMBER"
    ∷ codes "SMEMBERS"
    ∷ codes "SREM"
    ∷ codes "SUNION"
    ∷ codes "TTL"
    ∷ codes "TYPE"
    ∷ codes "UNLINK"
    ∷ codes "ZADD"
    ∷ codes "ZCARD"
    ∷ codes "ZCOUNT"
    ∷ codes "ZINCRBY"
    ∷ codes "ZRANGE"
    ∷ codes "ZRANGEBYSCORE"
    ∷ codes "ZRANK"
    ∷ codes "ZREM"
    ∷ codes "ZREVRANGE"
    ∷ codes "ZSCORE"
    ∷ []

-- redisKeyCommands
unfoldable pub redis_key_commands : List Bytes
redis_key_commands =
    codes "APPEND"
    ∷ codes "COPY"
    ∷ codes "DECR"
    ∷ codes "DECRBY"
    ∷ codes "EXPIRE"
    ∷ codes "EXPIREAT"
    ∷ codes "GET"
    ∷ codes "GETBIT"
    ∷ codes "GETDEL"
    ∷ codes "GETEX"
    ∷ codes "GETRANGE"
    ∷ codes "GETSET"
    ∷ codes "HDEL"
    ∷ codes "HEXISTS"
    ∷ codes "HGET"
    ∷ codes "HGETALL"
    ∷ codes "HINCRBY"
    ∷ codes "HKEYS"
    ∷ codes "HLEN"
    ∷ codes "HMGET"
    ∷ codes "HSET"
    ∷ codes "HSETNX"
    ∷ codes "HVALS"
    ∷ codes "INCR"
    ∷ codes "INCRBY"
    ∷ codes "LINDEX"
    ∷ codes "LLEN"
    ∷ codes "LPOP"
    ∷ codes "LPUSH"
    ∷ codes "LRANGE"
    ∷ codes "LREM"
    ∷ codes "LSET"
    ∷ codes "LTRIM"
    ∷ codes "OBJECT"
    ∷ codes "PERSIST"
    ∷ codes "PEXPIRE"
    ∷ codes "PTTL"
    ∷ codes "RENAME"
    ∷ codes "RPOP"
    ∷ codes "RPUSH"
    ∷ codes "SADD"
    ∷ codes "SCARD"
    ∷ codes "SET"
    ∷ codes "SETEX"
    ∷ codes "SETNX"
    ∷ codes "SETRANGE"
    ∷ codes "SISMEMBER"
    ∷ codes "SMEMBERS"
    ∷ codes "SREM"
    ∷ codes "TTL"
    ∷ codes "TYPE"
    ∷ codes "ZADD"
    ∷ codes "ZCARD"
    ∷ codes "ZCOUNT"
    ∷ codes "ZINCRBY"
    ∷ codes "ZRANGE"
    ∷ codes "ZRANGEBYSCORE"
    ∷ codes "ZRANK"
    ∷ codes "ZREM"
    ∷ codes "ZREVRANGE"
    ∷ codes "ZSCORE"
    ∷ []

-- redisMultiKeyCommands
unfoldable pub redis_multi_key_commands : List Bytes
redis_multi_key_commands =
    codes "DEL"
    ∷ codes "EXISTS"
    ∷ codes "MGET"
    ∷ codes "SDIFF"
    ∷ codes "SINTER"
    ∷ codes "SUNION"
    ∷ codes "TOUCH"
    ∷ codes "UNLINK"
    ∷ codes "WATCH"
    ∷ []

-- The words of sqlKeywordSet that are not in sqlKeywords.
unfoldable pub more_keywords : List Bytes
more_keywords =
    codes "ALL"
    ∷ codes "ANY"
    ∷ codes "ASOF"
    ∷ codes "FINAL"
    ∷ codes "GLOBAL"
    ∷ codes "PREWHERE"
    ∷ codes "RETURNING"
    ∷ codes "SAMPLE"
    ∷ codes "WINDOW"
    ∷ []

-- sqlKeywordSet
unfoldable pub sql_keyword_set : List Bytes
unfolding sql_keywords more_keywords
sql_keyword_set = sql_keywords ++ more_keywords
