-- ===== src/Orders/Trading/Alone/Laws.antt =====
-- That each connection is served as if its provider were alone.
