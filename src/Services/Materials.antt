-- ===== src/Services/Materials.antt =====
-- app/services/materials.py: the commands on materials, their effects, and the service.
pub mod Commands
pub mod Stock
pub mod Service
pub mod Plans
pub mod Moves
pub mod Deliveries
