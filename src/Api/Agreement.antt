-- ===== src/Api/Agreement.antt =====
-- The HTTP API against local mode (src/mob/cli/local_backend.py): the requests that both make of a
-- method, a path, a body and query parameters.
