-- ===== src/Handlers/Maven/Found.antt =====
-- The artifact that a Maven request looks for, and what a build of its package registers.
