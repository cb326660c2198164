-- ===== src/Scheduling.antt =====
-- services/scheduling/src/scheduling_service: the free slots of a calendar and the bookings.
pub mod Slots
pub mod Offers
pub mod Ends
pub mod Service
pub mod Providers
pub mod Bookings
pub mod Booked
pub mod Lawful
pub mod Api
pub mod Calendar
pub mod Trace
pub mod Spread
pub mod Availability
pub mod Offering
