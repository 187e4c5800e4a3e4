-- ===== src/Classification.antt =====
-- app/classification: the results of the classifier.
pub mod Contrast
pub mod PostProcessing
mod Tests
