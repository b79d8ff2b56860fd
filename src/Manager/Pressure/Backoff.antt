-- ===== src/Manager/Pressure/Backoff.antt =====
-- How long a service waits after a failure.
