-- ===== src/Api.antt =====
-- The routes of frontend/src/app/api between the browser and the backend's gRPC service.
pub mod Values
pub mod Fields
pub mod Backend
pub mod Orders
pub mod BestRoute
