-- ===== src/World/Inventory/Mirror.antt =====
-- The player's inventory mirrors the last 36 slots of the container that is open.
