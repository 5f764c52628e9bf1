-- ===== src/Scraper/Gcp/MachineTypes.antt =====
-- internal/scraper/gcp.go: the predefined machine types of each family, with vCPUs and GB of memory
-- in hundredths, and the descriptions of the SKUs that price a vCPU and a GB.
use c3x_pricing_api.Base.{ℕ, String, List, [], ◌∷◌}

pub record MachineType : Type 0 where
  pub name : String
  pub cpus : ℕ
  pub ram : ℕ

pub record Family : Type 0 where
  pub name : String
  pub cpu_pattern : String
  pub ram_pattern : String
  pub machine_types : List MachineType

abbrev machine_type : String → ℕ → ℕ → MachineType
machine_type name cpus ram = record { name = name; cpus = cpus; ram = ram }

unfoldable pub n1_types : List MachineType
n1_types =
    machine_type "n1-standard-1" 100 375
    ∷ machine_type "n1-standard-2" 200 750
    ∷ machine_type "n1-standard-4" 400 1500
    ∷ machine_type "n1-standard-8" 800 3000
    ∷ machine_type "n1-standard-16" 1600 6000
    ∷ machine_type "n1-standard-32" 3200 12000
    ∷ machine_type "n1-standard-64" 6400 24000
    ∷ machine_type "n1-standard-96" 9600 36000
    ∷ machine_type "n1-highmem-2" 200 1300
    ∷ machine_type "n1-highmem-4" 400 2600
    ∷ machine_type "n1-highmem-8" 800 5200
    ∷ machine_type "n1-highmem-16" 1600 10400
    ∷ machine_type "n1-highmem-32" 3200 20800
    ∷ machine_type "n1-highmem-64" 6400 41600
    ∷ machine_type "n1-highmem-96" 9600 62400
    ∷ machine_type "n1-highcpu-2" 200 180
    ∷ machine_type "n1-highcpu-4" 400 360
    ∷ machine_type "n1-highcpu-8" 800 720
    ∷ machine_type "n1-highcpu-16" 1600 1440
    ∷ machine_type "n1-highcpu-32" 3200 2880
    ∷ machine_type "n1-highcpu-64" 6400 5760
    ∷ machine_type "n1-highcpu-96" 9600 8640
    ∷ []

unfoldable pub n2_types : List MachineType
n2_types =
    machine_type "n2-standard-2" 200 800
    ∷ machine_type "n2-standard-4" 400 1600
    ∷ machine_type "n2-standard-8" 800 3200
    ∷ machine_type "n2-standard-16" 1600 6400
    ∷ machine_type "n2-standard-32" 3200 12800
    ∷ machine_type "n2-standard-48" 4800 19200
    ∷ machine_type "n2-standard-64" 6400 25600
    ∷ machine_type "n2-standard-80" 8000 32000
    ∷ machine_type "n2-standard-96" 9600 38400
    ∷ machine_type "n2-standard-128" 12800 51200
    ∷ machine_type "n2-highmem-2" 200 1600
    ∷ machine_type "n2-highmem-4" 400 3200
    ∷ machine_type "n2-highmem-8" 800 6400
    ∷ machine_type "n2-highmem-16" 1600 12800
    ∷ machine_type "n2-highmem-32" 3200 25600
    ∷ machine_type "n2-highmem-48" 4800 38400
    ∷ machine_type "n2-highmem-64" 6400 51200
    ∷ machine_type "n2-highmem-80" 8000 64000
    ∷ machine_type "n2-highmem-96" 9600 76800
    ∷ machine_type "n2-highmem-128" 12800 86400
    ∷ machine_type "n2-highcpu-2" 200 200
    ∷ machine_type "n2-highcpu-4" 400 400
    ∷ machine_type "n2-highcpu-8" 800 800
    ∷ machine_type "n2-highcpu-16" 1600 1600
    ∷ machine_type "n2-highcpu-32" 3200 3200
    ∷ machine_type "n2-highcpu-48" 4800 4800
    ∷ machine_type "n2-highcpu-64" 6400 6400
    ∷ machine_type "n2-highcpu-80" 8000 8000
    ∷ machine_type "n2-highcpu-96" 9600 9600
    ∷ []

unfoldable pub e2_types : List MachineType
e2_types =
    machine_type "e2-micro" 25 100
    ∷ machine_type "e2-small" 50 200
    ∷ machine_type "e2-medium" 100 400
    ∷ machine_type "e2-standard-2" 200 800
    ∷ machine_type "e2-standard-4" 400 1600
    ∷ machine_type "e2-standard-8" 800 3200
    ∷ machine_type "e2-standard-16" 1600 6400
    ∷ machine_type "e2-standard-32" 3200 12800
    ∷ machine_type "e2-highmem-2" 200 1600
    ∷ machine_type "e2-highmem-4" 400 3200
    ∷ machine_type "e2-highmem-8" 800 6400
    ∷ machine_type "e2-highmem-16" 1600 12800
    ∷ machine_type "e2-highcpu-2" 200 200
    ∷ machine_type "e2-highcpu-4" 400 400
    ∷ machine_type "e2-highcpu-8" 800 800
    ∷ machine_type "e2-highcpu-16" 1600 1600
    ∷ machine_type "e2-highcpu-32" 3200 3200
    ∷ []

unfoldable pub n2d_types : List MachineType
n2d_types =
    machine_type "n2d-standard-2" 200 800
    ∷ machine_type "n2d-standard-4" 400 1600
    ∷ machine_type "n2d-standard-8" 800 3200
    ∷ machine_type "n2d-standard-16" 1600 6400
    ∷ machine_type "n2d-standard-32" 3200 12800
    ∷ machine_type "n2d-standard-48" 4800 19200
    ∷ machine_type "n2d-standard-64" 6400 25600
    ∷ machine_type "n2d-standard-80" 8000 32000
    ∷ machine_type "n2d-standard-96" 9600 38400
    ∷ machine_type "n2d-standard-128" 12800 51200
    ∷ machine_type "n2d-standard-224" 22400 89600
    ∷ machine_type "n2d-highmem-2" 200 1600
    ∷ machine_type "n2d-highmem-4" 400 3200
    ∷ machine_type "n2d-highmem-8" 800 6400
    ∷ machine_type "n2d-highmem-16" 1600 12800
    ∷ machine_type "n2d-highmem-32" 3200 25600
    ∷ machine_type "n2d-highmem-48" 4800 38400
    ∷ machine_type "n2d-highmem-64" 6400 51200
    ∷ machine_type "n2d-highmem-80" 8000 64000
    ∷ machine_type "n2d-highmem-96" 9600 76800
    ∷ machine_type "n2d-highcpu-2" 200 200
    ∷ machine_type "n2d-highcpu-4" 400 400
    ∷ machine_type "n2d-highcpu-8" 800 800
    ∷ machine_type "n2d-highcpu-16" 1600 1600
    ∷ machine_type "n2d-highcpu-32" 3200 3200
    ∷ machine_type "n2d-highcpu-48" 4800 4800
    ∷ machine_type "n2d-highcpu-64" 6400 6400
    ∷ machine_type "n2d-highcpu-80" 8000 8000
    ∷ machine_type "n2d-highcpu-96" 9600 9600
    ∷ machine_type "n2d-highcpu-128" 12800 12800
    ∷ machine_type "n2d-highcpu-224" 22400 22400
    ∷ []

unfoldable pub c2_types : List MachineType
c2_types =
    machine_type "c2-standard-4" 400 1600
    ∷ machine_type "c2-standard-8" 800 3200
    ∷ machine_type "c2-standard-16" 1600 6400
    ∷ machine_type "c2-standard-30" 3000 12000
    ∷ machine_type "c2-standard-60" 6000 24000
    ∷ []

unfoldable pub c2d_types : List MachineType
c2d_types =
    machine_type "c2d-standard-2" 200 800
    ∷ machine_type "c2d-standard-4" 400 1600
    ∷ machine_type "c2d-standard-8" 800 3200
    ∷ machine_type "c2d-standard-16" 1600 6400
    ∷ machine_type "c2d-standard-32" 3200 12800
    ∷ machine_type "c2d-standard-56" 5600 22400
    ∷ machine_type "c2d-standard-112" 11200 44800
    ∷ machine_type "c2d-highmem-2" 200 1600
    ∷ machine_type "c2d-highmem-4" 400 3200
    ∷ machine_type "c2d-highmem-8" 800 6400
    ∷ machine_type "c2d-highmem-16" 1600 12800
    ∷ machine_type "c2d-highmem-32" 3200 25600
    ∷ machine_type "c2d-highmem-56" 5600 44800
    ∷ machine_type "c2d-highmem-112" 11200 89600
    ∷ machine_type "c2d-highcpu-2" 200 200
    ∷ machine_type "c2d-highcpu-4" 400 400
    ∷ machine_type "c2d-highcpu-8" 800 800
    ∷ machine_type "c2d-highcpu-16" 1600 1600
    ∷ machine_type "c2d-highcpu-32" 3200 3200
    ∷ machine_type "c2d-highcpu-56" 5600 5600
    ∷ machine_type "c2d-highcpu-112" 11200 11200
    ∷ []

unfoldable pub t2d_types : List MachineType
t2d_types =
    machine_type "t2d-standard-1" 100 400
    ∷ machine_type "t2d-standard-2" 200 800
    ∷ machine_type "t2d-standard-4" 400 1600
    ∷ machine_type "t2d-standard-8" 800 3200
    ∷ machine_type "t2d-standard-16" 1600 6400
    ∷ machine_type "t2d-standard-32" 3200 12800
    ∷ machine_type "t2d-standard-48" 4800 19200
    ∷ machine_type "t2d-standard-60" 6000 24000
    ∷ []

unfoldable pub t2a_types : List MachineType
t2a_types =
    machine_type "t2a-standard-1" 100 400
    ∷ machine_type "t2a-standard-2" 200 800
    ∷ machine_type "t2a-standard-4" 400 1600
    ∷ machine_type "t2a-standard-8" 800 3200
    ∷ machine_type "t2a-standard-16" 1600 6400
    ∷ machine_type "t2a-standard-32" 3200 12800
    ∷ machine_type "t2a-standard-48" 4800 19200
    ∷ []

unfoldable pub gcp_families : List Family
gcp_families =
    (record {
      name = "n1";
      cpu_pattern = "N1 Predefined Instance Core";
      ram_pattern = "N1 Predefined Instance Ram";
      machine_types = n1_types;
    })
    ∷ (record {
      name = "n2";
      cpu_pattern = "N2 Instance Core";
      ram_pattern = "N2 Instance Ram";
      machine_types = n2_types;
    })
    ∷ (record {
      name = "e2";
      cpu_pattern = "E2 Instance Core";
      ram_pattern = "E2 Instance Ram";
      machine_types = e2_types;
    })
    ∷ (record {
      name = "n2d";
      cpu_pattern = "N2D AMD Instance Core";
      ram_pattern = "N2D AMD Instance Ram";
      machine_types = n2d_types;
    })
    ∷ (record {
      name = "c2";
      cpu_pattern = "Compute optimized Core";
      ram_pattern = "Compute optimized Ram";
      machine_types = c2_types;
    })
    ∷ (record {
      name = "c2d";
      cpu_pattern = "C2D AMD Instance Core";
      ram_pattern = "C2D AMD Instance Ram";
      machine_types = c2d_types;
    })
    ∷ (record {
      name = "t2d";
      cpu_pattern = "T2D AMD Instance Core";
      ram_pattern = "T2D AMD Instance Ram";
      machine_types = t2d_types;
    })
    ∷ (record {
      name = "t2a";
      cpu_pattern = "T2A Arm Instance Core";
      ram_pattern = "T2A Arm Instance Ram";
      machine_types = t2a_types;
    })
    ∷ []
