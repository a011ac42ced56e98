-- ===== src/Protocol.antt =====
-- include/Protocol/Protocol.h: the three outcomes of a parser, and the protocols.
pub mod MyProtocol

-- `enum class ParseResult`
pub data ParseResult : Type 0 where
  ok need_more error : ParseResult
