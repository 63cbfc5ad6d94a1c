-- ===== src/Menu/Bulk.antt =====
-- The bulk import of a menu: backend/menu/bulkImport/validator.ts and service.ts. The reading of the
-- workbook file is not modelled.
pub mod Validator
pub mod Categories
pub mod Import
pub mod Confirm
pub mod Laws
pub mod Named
pub mod Names
