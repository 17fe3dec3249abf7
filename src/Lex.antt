-- ===== src/Lex.antt =====
-- lib/cpb/_lex.py: the duplicate-preserving JSON scanner.
-- A scanner keeps the text that is left behind the character position (`self._t[self._p:]` and
-- `self._p`), the depth and the violations found so far.
pub mod Number
pub mod Quoted
pub mod Scanner
