-- ===== src/Event/Inventory.antt =====
-- `PrismaInventoryRepository`, services/event-service/src/modules/inventory/inventory.repository.ts,
-- and `InventoryService`, inventory.service.ts beside it.
pub mod Repository
pub mod Rows
pub mod Reserve
pub mod Release
pub mod Deliveries
pub mod Redelivery
pub mod Service
